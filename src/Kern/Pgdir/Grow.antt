-- ===== src/Kern/Pgdir/Grow.antt =====
-- pgdir_walk of lab/kern/pmap.c when it has to make a page table.
use adv_os_jos.Prelude.{
  ℕ, ◌+◌, ◌^◌, ◌<◌, ◌≤◌, ◌≡◌, ◌≢◌, sym, ◌∙◌, ap, ap₂, ◌⊎◌, true, false, ==_ne, arith, ℕ_discrete,
  none, some, Bool-cases, inl, inr, update, update_self, update_ne, update_laws, update-update,
}
use adv_os_jos.Kern.Machine.{Kernel, PageInfo, ok, pdx, ptx, pgsize, set_ref}
use adv_os_jos.Kern.Page.FreeList.{taken, page_alloc-taken, page2kva-ok}
use adv_os_jos.Kern.Pgdir.{pgdir_walk}
use adv_os_jos.Kern.Page.{page_alloc}
use adv_os_jos.Kern.Pgdir.Entry.{dir_entry, dir_entry_lem}
use adv_os_jos.Kern.Pgdir.Translate.{
  Memory, pde, present, table, valid, translate, translate-present, translate-absent, IsDir,
  uvpt_slot,
}
use adv_os_jos.Kern.Pgdir.Write.{poke, poke_self, poke_frame, poke_ne}

-- A page that can become a page table of `pgdir`.
pub record IsFresh (k : Kernel) (pgdir p : ℕ) : Type 0 where
  pub in_range : p < k.npages
  pub not_dir : p ≢ pgdir
  pub not_table : (d : ℕ) → present k.memory pgdir d ≡ true → table k.memory pgdir d ≢ p

-- The state after the free page `p` became the page table of `va`.
abbrev pub grown : (k : Kernel) (pgdir va p : ℕ) → Kernel
grown k pgdir va p = record k {
  pages = update k.pages p (record { pp_link = none; pp_ref = 1 });
  page_free_list = (k.pages p).pp_link;
  memory = poke (update k.memory p (λ _. 0)) pgdir (pdx va) (dir_entry p);
}

-- With an empty free list the walk returns NULL and changes nothing.
pub walk-no_memory :
    (k : Kernel) (pgdir va : ℕ)
    → present k.memory pgdir (pdx va) ≡ false
    → k.page_free_list ≡ none
    → pgdir_walk pgdir va true k ≡ ok none k
unfolding pgdir_walk page_alloc
walk-no_memory k pgdir va gone e = rw (gone, e)

-- the state when new_table has counted the page
abbrev referenced : (k : Kernel) (p : ℕ) → Kernel
referenced k p = set_ref p (((taken pgsize p k).pages p).pp_ref + 1) (taken pgsize p k)

pub walk-grown :
    (k : Kernel) (pgdir va p : ℕ)
    → present k.memory pgdir (pdx va) ≡ false
    → k.page_free_list ≡ some p
    → k.npages ≤ 2 ^ 20
    → p < k.npages
    → pgdir_walk pgdir va true k ≡ ok (some (p, ptx va)) (grown k pgdir va p)
unfolding pgdir_walk
walk-grown k pgdir va p gone e small lt =
    rw (gone, page_alloc-taken pgsize k p e lt small, page2kva-ok (referenced k p) p lt small)
      (ap₂
        (λ (g : ℕ → PageInfo) (m : Memory). ok (some (p, ptx va)) (record k {
          pages = g;
          page_free_list = (k.pages p).pp_link;
          memory = poke m pgdir (pdx va) (dir_entry p);
        }))
        (simp update_laws) (update-update k.memory p (λ _. 0) (λ _. 0)))

module _ {k : Kernel} {pgdir p : ℕ} (small : k.npages ≤ 2 ^ 20) (f : IsFresh k pgdir p)
    (va : ℕ) where
  abbrev after : Memory
  after = (grown k pgdir va p).memory

  pde-grown_self : pde after pgdir (pdx va) ≡ dir_entry p
  pde-grown_self = poke_self (update k.memory p (λ _. 0)) pgdir (pdx va) (dir_entry p)

  pde-grown_ne : (d : ℕ) → pdx va ≢ d → pde after pgdir d ≡ pde k.memory pgdir d
  pde-grown_ne d ne =
      poke_ne (update k.memory p (λ _. 0)) pgdir (pdx va) (dir_entry p) d ne
      ∙ ap (λ (g : ℕ → ℕ). g d) (update_ne k.memory p _ pgdir (==_ne p pgdir f.not_dir))

  pub table-grown_self : table after pgdir (pdx va) ≡ p
  table-grown_self = rw pde-grown_self (dir_entry_lem p (omega (arith, f.in_range))).1

  pub present-grown_self : present after pgdir (pdx va) ≡ true
  present-grown_self = rw pde-grown_self (dir_entry_lem p (omega (arith, f.in_range))).0

  row-grown : (q : ℕ) → q ≢ pgdir → q ≢ p → after q ≡ k.memory q
  row-grown q nd np =
      poke_frame (update k.memory p (λ _. 0)) pgdir (pdx va) (dir_entry p) q (λ e. nd (sym e))
      ∙ update_ne k.memory p _ q (==_ne p q (λ e. np (sym e)))

  row-grown_self : (i : ℕ) → after p i ≡ 0
  row-grown_self i =
      ap (λ (g : ℕ → ℕ). g i)
        (poke_frame (update k.memory p (λ _. 0)) pgdir (pdx va) (dir_entry p) p
            (λ e. f.not_dir (sym e))
          ∙ update_self k.memory p _)

  -- Where a table of the grown directory comes from.
  tables :
      (d : ℕ)
      → present after pgdir d ≡ true
      → ((d ≡ pdx va) × (table after pgdir d ≡ p))
        ⊎ ((d ≢ pdx va)
            × (present k.memory pgdir d ≡ true)
            × (table after pgdir d ≡ table k.memory pgdir d))
  tables d there = elim (ℕ_discrete d (pdx va)) [
    | yes e ↦ inl (e, rw e table-grown_self)
    | no ne ↦ let same = pde-grown_ne d (λ e. ne (sym e)) in inr (ne, rw same at there, rw same)
  ]

  -- Growing by a fresh page keeps the tables apart.
  pub grown-IsDir : IsDir k pgdir → IsDir (grown k pgdir va p) pgdir
  grown-IsDir v = record {
    table_in = λ d there. elim (tables d there) [
      | inl (_, t) ↦ rw t f.in_range
      | inr (_, was, t) ↦ rw t (v.table_in d was)
    ];
    table_apart = λ d out there. elim (tables d there) [
      | inl (_, t) ↦ rw t f.not_dir
      | inr (_, was, t) ↦ rw t (v.table_apart d out was)
    ];
    tables_differ = λ d e ne there there'. differ d e ne (tables d there) (tables e there');
  }
    where
      Origin : ℕ → Type 0
      Origin d =
          ((d ≡ pdx va) × (table after pgdir d ≡ p))
          ⊎ ((d ≢ pdx va)
              × (present k.memory pgdir d ≡ true)
              × (table after pgdir d ≡ table k.memory pgdir d))

      differ : (d e : ℕ) → d ≢ e → Origin d → Origin e → table after pgdir d ≢ table after pgdir e
      differ d e ne (inl (x, _)) (inl (y, _)) = absurd (ne (x ∙ sym y))
      differ d e ne (inl (_, s)) (inr (_, was, t)) = λ q. f.not_table e was (sym t ∙ sym q ∙ s)
      differ d e ne (inr (_, was, s)) (inl (_, t)) = λ q. f.not_table d was (sym s ∙ q ∙ t)
      differ d e ne (inr (_, was, s)) (inr (_, was', t)) =
          λ q. v.tables_differ d e ne was was' (sym s ∙ q ∙ t)

  -- A new page table maps nothing.
  translate-empty : (vb : ℕ) → pdx vb ≡ pdx va → translate after pgdir vb ≡ none
  translate-empty vb e =
      let word : after (table after pgdir (pdx vb)) (ptx vb) ≡ 0 =
        rw (e, table-grown_self) (row-grown_self (ptx vb)) in
      translate-present after pgdir vb (rw e present-grown_self) ∙ ap valid {y = 0} word

  -- Growing by a fresh page changes no mapping outside the window at UVPT.
  pub translate-grown :
      IsDir k pgdir
      → present k.memory pgdir (pdx va) ≡ false
      → (vb : ℕ) → pdx vb ≢ uvpt_slot
      → translate after pgdir vb ≡ translate k.memory pgdir vb
  translate-grown v gone vb out = elim (ℕ_discrete (pdx va) (pdx vb)) [
    | yes e ↦ translate-empty vb (sym e) ∙ sym (translate-absent k.memory pgdir vb (rw (← e) gone))
    | no ne ↦ beside ne (Bool-cases (present k.memory pgdir (pdx vb)))
  ]
    where
      beside :
          pdx va ≢ pdx vb
          → (present k.memory pgdir (pdx vb) ≡ true) ⊎ (present k.memory pgdir (pdx vb) ≡ false)
          → translate after pgdir vb ≡ translate k.memory pgdir vb
      beside ne (inr absent) =
          translate-absent after pgdir vb (rw (pde-grown_ne (pdx vb) ne) absent)
          ∙ sym (translate-absent k.memory pgdir vb absent)
      beside ne (inl there) =
          translate-present after pgdir vb (rw (pde-grown_ne (pdx vb) ne) there)
          ∙ rw (pde-grown_ne (pdx vb) ne) (
              ap (λ (g : ℕ → ℕ). valid (g (ptx vb)))
                (row-grown (table k.memory pgdir (pdx vb)) (v.table_apart (pdx vb) out there)
                  (f.not_table (pdx vb) there)))
          ∙ sym (translate-present k.memory pgdir vb there)
