-- ===== src/Kern/Pgdir/Write.antt =====
-- What one store to a page table changes in the mapping, and what page_decref leaves alone.
use adv_os_jos.Prelude.{
  ℕ, ◌+◌, ◌-◌, ◌/◌, ◌%◌, ◌^◌, ◌≡◌, ◌≢◌, ◌∙◌, ap, true, ◌==◌, arith, ℕ_discrete, some, Bool-cases,
  inl, inr, if◌then◌else◌, update, update_self, update_ne, ==_ne, ==_iff, update_laws,
  update-update,
}
use adv_os_jos.Kern.Machine.{Kernel, PageInfo, set_ref, ok, pdx, ptx}
use adv_os_jos.Kern.Page.{page_decref}
use adv_os_jos.Kern.Page.FreeList.{page_free-freed}
use adv_os_jos.Kern.Pgdir.Entry.{pdx_lem, ptx_lem}
use adv_os_jos.Kern.Pgdir.Translate.{
  Memory, pde, present, table, valid, translate, IsDir, uvpt_slot,
}

-- memory with the word `i` of frame `tab` written
abbrev pub poke : Memory → ℕ → ℕ → ℕ → Memory
poke m tab i w = update m tab (update (m tab) i w)

pub poke_self : (m : Memory) (tab i w : ℕ) → poke m tab i w tab i ≡ w
poke_self m tab i w = rw update_self (update_self (m tab) i w)

pub poke_frame : (m : Memory) (tab i w f : ℕ) → tab ≢ f → poke m tab i w f ≡ m f
poke_frame m tab i w f ne = update_ne m tab _ f (==_ne tab f ne)

pub poke_ne : (m : Memory) (tab i w j : ℕ) → i ≢ j → poke m tab i w tab j ≡ m tab j
poke_ne m tab i w j ne = rw update_self (update_ne (m tab) i w j (==_ne i j ne))

pub poke-poke : (m : Memory) (tab i a b : ℕ) → poke (poke m tab i a) tab i b ≡ poke m tab i b
poke-poke m tab i a b = rw update_self (simp update-update)

-- An address's page is fixed by its two indices.
indices : (va vb : ℕ) → pdx va ≡ pdx vb → ptx va ≡ ptx vb → va / 4096 % 2 ^ 20 ≡ vb / 4096 % 2 ^ 20
indices va vb d t = omega (arith, pdx_lem va, pdx_lem vb, ptx_lem va, ptx_lem vb)

module _ {k : Kernel} {pgdir : ℕ} (v : IsDir k pgdir) (va w : ℕ) (out : pdx va ≢ uvpt_slot)
    (here : present k.memory pgdir (pdx va) ≡ true) where
  abbrev pub written : Memory
  written = poke k.memory (table k.memory pgdir (pdx va)) (ptx va) w

  -- A store to a page table leaves the directory as it was.
  pub pde-written : (d : ℕ) → pde written pgdir d ≡ pde k.memory pgdir d
  pde-written d =
      ap (λ (f : ℕ → ℕ). f d)
        (poke_frame k.memory (table k.memory pgdir (pdx va)) (ptx va) w pgdir
          (v.table_apart (pdx va) out here))

  -- After a store to the entry of `va` the page at `va` is the one that the word maps.
  pub translate-written : translate written pgdir va ≡ valid w
  unfolding translate
  translate-written =
      rw (pde-written (pdx va), here)
        (ap valid (poke_self k.memory (table k.memory pgdir (pdx va)) (ptx va) w))

  -- It changes no other page.
  pub translate-written_ne :
      (vb : ℕ)
      → va / 4096 % 2 ^ 20 ≢ vb / 4096 % 2 ^ 20
      → translate written pgdir vb ≡ translate k.memory pgdir vb
  unfolding translate
  translate-written_ne vb other =
      rw (pde-written (pdx vb)) (elim (Bool-cases (present k.memory pgdir (pdx vb))) [
        | inl there ↦ rw there (ap valid (elsewhere there (ℕ_discrete (pdx va) (pdx vb))))
        | inr gone ↦ rw gone
      ])
    where
      elsewhere :
          present k.memory pgdir (pdx vb) ≡ true
          → Dec (pdx va ≡ pdx vb)
          → written (table k.memory pgdir (pdx vb)) (ptx vb)
            ≡ k.memory (table k.memory pgdir (pdx vb)) (ptx vb)
      elsewhere there (yes d) = rw (← d) (
          poke_ne k.memory (table k.memory pgdir (pdx va)) (ptx va) w (ptx vb)
            (λ t. other (indices va vb d t)))
      elsewhere there (no d) =
          ap (λ (f : ℕ → ℕ). f (ptx vb))
            (poke_frame k.memory (table k.memory pgdir (pdx va)) (ptx va) w
              (table k.memory pgdir (pdx vb)) (v.tables_differ (pdx va) (pdx vb) d here there))

-- The state after page_decref: the count is lowered, and at zero the page is freed.
abbrev pub dropped : ℕ → Kernel → Kernel
dropped p k =
    let n = ((k.pages p).pp_ref + 2 ^ 16 - 1) % 2 ^ 16 in
    record k {
      pages =
          if n == 0
          then update k.pages p (record { pp_link = k.page_free_list; pp_ref = n })
          else update k.pages p (record (k.pages p) { pp_ref = n });
      page_free_list = if n == 0 then some p else k.page_free_list;
    }

abbrev lowered : ℕ → Kernel → Kernel
lowered p k = set_ref p ((k.pages p).pp_ref + 2 ^ 16 - 1) k

pub page_decref-dropped : (p : ℕ) (k : Kernel) → page_decref p k ≡ ok tt (dropped p k)
unfolding page_decref
page_decref-dropped p k = elim (Bool-cases (((k.pages p).pp_ref + 2 ^ 16 - 1) % 2 ^ 16 == 0)) [
  | inl last ↦
      rw (update_self, last)
        (page_free-freed (lowered p k) p (simp update_self ((==_iff _ 0).0 last))
          ∙ ap (λ (g : ℕ → PageInfo). ok tt (record k { pages = g; page_free_list = some p }))
              (simp update_laws))
  | inr more ↦ rw (update_self, more)
]

pub ref-dropped :
    (p : ℕ) (k : Kernel)
    → ((dropped p k).pages p).pp_ref ≡ ((k.pages p).pp_ref + 2 ^ 16 - 1) % 2 ^ 16
unfolding update
ref-dropped p k = ground arith
