-- ===== src/Kern/Env/Directory.antt =====
-- The page directory that env_setup_vm of lab/kern/env.c makes.
use adv_os_jos.Prelude.{
  ℕ, ◌+◌, ◌^◌, ◌≤◌, ◌≡◌, ◌≢◌, refl, sym, ◌∙◌, ap, ◌⊎◌, true, false, ==_ne, arith, ℕ_discrete,
  Option-cases, none, some, Bool-cases, inl, inr, ltb, lt→ltb, update, update_self, update_ne,
  if◌then◌else◌, pos, neg,
}
use adv_os_jos.Kern.Machine.{
  Kernel, ok, pdx, ptx, uvpt, npdentries, pte_u, set_ref, set_env, write_word, e_no_mem,
}
use adv_os_jos.Kern.Page.{page_alloc, alloc_zero}
use adv_os_jos.Kern.Page.FreeList.{taken, page_alloc-taken, page2kva-ok}
use adv_os_jos.Kern.Pgdir.Entry.{entry, entry-present, pte_addr-entry, pdx_lem}
use adv_os_jos.Kern.Pgdir.Translate.{
  Memory, present, table, valid, translate, translate-present, translate-absent, IsDir, uvpt_slot,
}
use adv_os_jos.Kern.Pgdir.Write.{poke_self, poke_ne, poke_frame}
use adv_os_jos.Kern.Pgdir.Grow.{IsFresh}
use adv_os_jos.Kern.Env.{env_setup_vm}

-- The state after the page `p` became the directory of `e`, in the steps of the code: the page counted,
-- owned, filled from the kernel's directory, and entered in itself.
abbrev counted : Kernel → ℕ → Kernel
counted k p = set_ref p (((taken alloc_zero p k).pages p).pp_ref + 1) (taken alloc_zero p k)

abbrev owned : Kernel → (e p : ℕ) → Kernel
owned k e p = set_env e (record ((counted k p).envs e) { env_pgdir = some p }) (counted k p)

abbrev copied : Kernel → (e p : ℕ) → Kernel
copied k e p = record (owned k e p) {
  memory = update (owned k e p).memory p (λ i.
      if ltb i npdentries then (owned k e p).memory k.kern_pgdir i else (owned k e p).memory p i);
}

abbrev made : Kernel → (e p : ℕ) → Kernel
made k e p = write_word p (pdx uvpt) (entry p pte_u) (copied k e p)

-- The directory of `e` in `k'`: it has its tables apart and itself at UVPT, and maps what the kernel's
-- directory maps in `k` everywhere else.
pub record HasDirectory (k k' : Kernel) (e p : ℕ) : Type 0 where
  pub is_own : (k'.envs e).env_pgdir ≡ some p
  pub is_dir : IsDir k' p
  pub itself : (present k'.memory p uvpt_slot ≡ true) × (table k'.memory p uvpt_slot ≡ p)
  pub as_kernel :
      (va : ℕ) → pdx va ≢ uvpt_slot → translate k'.memory p va ≡ translate k.memory k.kern_pgdir va

module _ (k : Kernel) (e p : ℕ) (v : IsDir k k.kern_pgdir) (small : k.npages ≤ 2 ^ 20)
    (f : IsFresh k k.kern_pgdir p) where
  after : Memory
  after = (made k e p).memory

  runs : k.page_free_list ≡ some p → env_setup_vm e k ≡ ok (pos 0) (made k e p)
  unfolding env_setup_vm
  runs free =
      rw
        (
          page_alloc-taken alloc_zero k p free f.in_range small,
          page2kva-ok (counted k p) p f.in_range small,
        )
        refl

  -- the other frames, and the words of the directory
  row-made : (q : ℕ) → p ≢ q → after q ≡ k.memory q
  unfolding after
  row-made q ne =
      poke_frame (copied k e p).memory p (pdx uvpt) (entry p pte_u) q ne
      ∙ update_ne (owned k e p).memory p _ q (==_ne p q ne)
      ∙ update_ne k.memory p _ q (==_ne p q ne)

  self-made : after p uvpt_slot ≡ entry p pte_u
  unfolding after
  self-made = poke_self (copied k e p).memory p (pdx uvpt) (entry p pte_u)

  word-made :
      (i : ℕ)
      → i ≢ uvpt_slot
      → after p i ≡ (if ltb i npdentries then k.memory k.kern_pgdir i else 0)
  unfolding after
  word-made i ne =
      let kern_row : update k.memory p (λ _. 0) k.kern_pgdir ≡ k.memory k.kern_pgdir =
        update_ne k.memory p _ k.kern_pgdir (==_ne p k.kern_pgdir f.not_dir) in
      let zero_row : update k.memory p (λ _. 0) p ≡ (λ _. 0) = update_self k.memory p _ in
      poke_ne (copied k e p).memory p (pdx uvpt) (entry p pte_u) i (λ same. ne (sym same))
      ∙ ap (λ (g : ℕ → ℕ). g i) (update_self (owned k e p).memory p _)
      ∙ rw (kern_row, zero_row) refl

  itself-made : (present after p uvpt_slot ≡ true) × (table after p uvpt_slot ≡ p)
  itself-made = (
    rw self-made (entry-present p pte_u),
    rw (self-made, pte_addr-entry p pte_u (omega (arith, f.in_range)) (omega arith))
        (omega (arith, f.in_range)),
  )

  -- Where a table of the new directory comes from.
  abbrev Origin : ℕ → Type 0
  Origin d =
      ((d ≡ uvpt_slot) × (table after p d ≡ p))
      ⊎ ((d ≢ uvpt_slot)
          × (present k.memory k.kern_pgdir d ≡ true)
          × (table after p d ≡ table k.memory k.kern_pgdir d))

  origin : (d : ℕ) → present after p d ≡ true → Origin d
  origin d there = elim (ℕ_discrete d uvpt_slot) [
    | yes same ↦ inl (same, rw same itself-made.1)
    | no ne ↦ elim (Bool-cases (ltb d npdentries)) [
      | inl low ↦
          let word : after p d ≡ k.memory k.kern_pgdir d = word-made d ne ∙ rw low refl in
          inr (ne, rw word at there, rw word refl)
      | inr high ↦
          let word : after p d ≡ 0 = word-made d ne ∙ rw high refl in
          let bad : false ≡ true = rw word at there in absurd (cc bad)
    ]
  ]

  made-IsDir : IsDir (made k e p) p
  unfolding after
  made-IsDir = record {
    table_in = λ d there. elim (origin d there) [
      | inl (_, t) ↦ rw t f.in_range
      | inr (_, was, t) ↦ rw t (v.table_in d was)
    ];
    table_apart = λ d out there. elim (origin d there) [
      | inl (same, _) ↦ absurd (out same)
      | inr (_, was, t) ↦ rw t (f.not_table d was)
    ];
    tables_differ = λ d i ne there there'. differ d i ne (origin d there) (origin i there');
  }
    where
      differ : (d i : ℕ) → d ≢ i → Origin d → Origin i → table after p d ≢ table after p i
      differ d i ne (inl (x, _)) (inl (y, _)) = absurd (ne (x ∙ sym y))
      differ d i ne (inl (_, s)) (inr (_, was, t)) = λ q. f.not_table i was (sym t ∙ sym q ∙ s)
      differ d i ne (inr (_, was, s)) (inl (_, t)) = λ q. f.not_table d was (sym s ∙ q ∙ t)
      differ d i ne (inr (_, was, s)) (inr (_, was', t)) =
          λ q. v.tables_differ d i ne was was' (sym s ∙ q ∙ t)

  translate-made :
      (va : ℕ) → pdx va ≢ uvpt_slot → translate after p va ≡ translate k.memory k.kern_pgdir va
  translate-made va out =
      let low : ltb (pdx va) npdentries ≡ true =
        lt→ltb (pdx va) npdentries (omega (arith, pdx_lem va)) in
      let word : after p (pdx va) ≡ k.memory k.kern_pgdir (pdx va) =
        word-made (pdx va) out ∙ rw low refl in
      elim (Bool-cases (present k.memory k.kern_pgdir (pdx va))) [
        | inl there ↦
            translate-present after p va (rw word there)
            ∙ rw word (
                ap (λ (g : ℕ → ℕ). valid (g (ptx va)))
                  (row-made (table k.memory k.kern_pgdir (pdx va))
                    (λ same. f.not_table (pdx va) there (sym same))))
            ∙ sym (translate-present k.memory k.kern_pgdir va there)
        | inr gone ↦
            translate-absent after p va (rw word gone)
            ∙ sym (translate-absent k.memory k.kern_pgdir va gone)
      ]

  made-HasDirectory : HasDirectory k (made k e p) e p
  unfolding after
  made-HasDirectory = record {
    is_own = rw update_self refl;
    is_dir = made-IsDir;
    itself = itself-made;
    as_kernel = translate-made;
  }

-- env_setup_vm made the directory of `e`, or had no page for it.
abbrev pub SetUp : (k : Kernel) (e : ℕ) → Type 0
SetUp k e =
    ((p : ℕ) × (k' : Kernel) × (k.page_free_list ≡ some p)
      × (env_setup_vm e k ≡ ok (pos 0) k')
      × HasDirectory k k' e p)
    ⊎ ((k.page_free_list ≡ none) × (env_setup_vm e k ≡ ok (neg e_no_mem) k))

no_page : (k : Kernel) (e : ℕ) → k.page_free_list ≡ none → env_setup_vm e k ≡ ok (neg e_no_mem) k
unfolding env_setup_vm page_alloc
no_page k e gone = rw gone refl

-- env_setup_vm, where the kernel's directory has its tables apart and does not use the next free page:
-- it returns 0 and that page is the directory of the environment, whose tables are pages of the machine
-- and apart, which is its own table at UVPT, and which maps every other address as the kernel's
-- directory does; or no page is free, it returns -E_NO_MEM and changes nothing.
pub env_setup_vm-IsDir :
    (k : Kernel) (e : ℕ)
    → IsDir k k.kern_pgdir
    → k.npages ≤ 2 ^ 20
    → ((p : ℕ) → k.page_free_list ≡ some p → IsFresh k k.kern_pgdir p)
    → SetUp k e
env_setup_vm-IsDir k e v small fresh = elim (Option-cases k.page_free_list) [
  | inl gone ↦ inr (gone, no_page k e gone)
  | inr (p, free) ↦ inl (
    p,
    made k e p,
    free,
    runs k e p v small (fresh p free) free,
    made-HasDirectory k e p v small (fresh p free),
  )
]
