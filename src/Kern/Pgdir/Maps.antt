-- ===== src/Kern/Pgdir/Maps.antt =====
-- The contract of page_insert in lab/kern/pmap.c, on every branch.
use adv_os_jos.Prelude.{
  ℕ, ◌/◌, ◌%◌, ◌^◌, ◌≤◌, ◌≡◌, ◌≢◌, sym, ◌∙◌, ap, true, false, Option, none, some, Option-cases,
  Bool-cases, ◌⊎◌, inl, inr, pos, neg,
}
use adv_os_jos.Kern.Machine.{Kernel, Run, and_then, ok, pdx, ptx, e_no_mem}
use adv_os_jos.Kern.Pgdir.{PtePtr, pgdir_walk, insert_at, page_insert}
use adv_os_jos.Kern.Pgdir.Entry.{entry, entry-present}
use adv_os_jos.Kern.Pgdir.Translate.{present, table, translate, IsDir, walk-present, uvpt_slot}
use adv_os_jos.Kern.Pgdir.Write.{translate-written, translate-written_ne}
use adv_os_jos.Kern.Pgdir.Insert.{insert-present}
use adv_os_jos.Kern.Pgdir.Grow.{
  IsFresh, grown, walk-no_memory, walk-grown, present-grown_self, table-grown_self, grown-IsDir,
  translate-grown,
}

-- The directory maps `va` by the entry for `pp`, and every other page outside the window at UVPT
-- as in `k`.
abbrev pub Mapped : (k k' : Kernel) (pgdir pp va perm : ℕ) → Type 0
Mapped k k' pgdir pp va perm =
    (translate k'.memory pgdir va ≡ some (entry pp perm))
    × ((vb : ℕ)
        → va / 4096 % 2 ^ 20 ≢ vb / 4096 % 2 ^ 20
        → pdx vb ≢ uvpt_slot
        → translate k'.memory pgdir vb ≡ translate k.memory pgdir vb)

module _ {k : Kernel} {pgdir : ℕ} (v : IsDir k pgdir) (pp va perm : ℕ)
    (out : pdx va ≢ uvpt_slot) where
  pub Mapped-present :
      present k.memory pgdir (pdx va) ≡ true
      → (k' : Kernel) × (page_insert pgdir pp va perm k ≡ ok (pos 0) k')
        × Mapped k k' pgdir pp va perm
  Mapped-present here =
      let i = insert-present v pp va perm here in
      let e = entry pp perm in
      (
        i.after,
        i.runs,
        (
          rw i.memory (translate-written v va e out here ∙ rw (entry-present pp perm)),
          λ vb ne _. rw i.memory (translate-written_ne v va e out here vb ne),
        ),
      )

-- The insertion makes the missing page table first, and goes on as if it had been there.
insert-grown :
    {k : Kernel} {pgdir p : ℕ} (pp va perm : ℕ)
    → IsDir k pgdir
    → k.npages ≤ 2 ^ 20
    → k.page_free_list ≡ some p
    → IsFresh k pgdir p
    → present k.memory pgdir (pdx va) ≡ false
    → page_insert pgdir pp va perm k ≡ page_insert pgdir pp va perm (grown k pgdir va p)
unfolding page_insert
insert-grown {k} {pgdir} {p} pp va perm v small e f gone =
    ap
      (λ (r : Run (Option PtePtr)). and_then r (λ o k'. elim o [
        | none ↦ ok (neg e_no_mem) k'
        | some pte ↦ insert_at pgdir pp va perm pte k'
      ]))
      (walk-grown k pgdir va p gone e small f.in_range ∙ sym at_page ∙ sym again)
  where
    k1 : Kernel
    k1 = grown k pgdir va p

    found : ℕ → Run (Option PtePtr)
    found t = ok (some (t, ptx va)) k1

    again : pgdir_walk pgdir va true k1 ≡ found (table k1.memory pgdir (pdx va))
    again = walk-present k1 pgdir va true (grown-IsDir small f va v) (present-grown_self small f va)

    at_page : found (table k1.memory pgdir (pdx va)) ≡ found p
    at_page = ap found (table-grown_self small f va)

insert-no_memory :
    (k : Kernel) (pgdir pp va perm : ℕ)
    → present k.memory pgdir (pdx va) ≡ false
    → k.page_free_list ≡ none
    → page_insert pgdir pp va perm k ≡ ok (neg e_no_mem) k
unfolding page_insert
insert-no_memory k pgdir pp va perm gone e = rw (walk-no_memory k pgdir va gone e)

-- page_insert mapped `va`, or had no page for the page table.
abbrev pub InsertOutcome : (k : Kernel) (pgdir pp va perm : ℕ) → Type 0
InsertOutcome k pgdir pp va perm =
    ((k' : Kernel) × (page_insert pgdir pp va perm k ≡ ok (pos 0) k')
      × Mapped k k' pgdir pp va perm)
    ⊎ ((present k.memory pgdir (pdx va) ≡ false)
        × (k.page_free_list ≡ none)
        × (page_insert pgdir pp va perm k ≡ ok (neg e_no_mem) k))

-- page_insert at an address outside the window at UVPT, in a directory whose tables are apart (the
-- directory may be its own table at UVPT) and where the next free page is not in use by it, either
-- maps `va` to the page `pp` with the permissions `perm`, leaves every other page outside the
-- window as it was mapped, and returns 0; or, when it needs a page table and no page is free,
-- returns -E_NO_MEM and changes nothing.
pub page_insert-maps :
    {k : Kernel} {pgdir : ℕ} (pp va perm : ℕ)
    → IsDir k pgdir
    → pdx va ≢ uvpt_slot
    → k.npages ≤ 2 ^ 20
    → ((p : ℕ) → k.page_free_list ≡ some p → IsFresh k pgdir p)
    → InsertOutcome k pgdir pp va perm
page_insert-maps {k} {pgdir} pp va perm v out small fresh =
    elim (Bool-cases (present k.memory pgdir (pdx va))) [
      | inl here ↦ inl (Mapped-present v pp va perm out here)
      | inr gone ↦ elim (Option-cases k.page_free_list) [
        | inl e ↦ inr (gone, e, insert-no_memory k pgdir pp va perm gone e)
        | inr (p, e) ↦ inl (grow gone p e (fresh p e))
      ]
    ]
  where
    grow :
        present k.memory pgdir (pdx va) ≡ false
        → (p : ℕ) → k.page_free_list ≡ some p
        → IsFresh k pgdir p
        → (k' : Kernel) × (page_insert pgdir pp va perm k ≡ ok (pos 0) k')
          × Mapped k k' pgdir pp va perm
    grow gone p e f =
        let (k', runs, (at, others)) =
          Mapped-present (grown-IsDir small f va v) pp va perm out
            (present-grown_self small f va) in
        (
          k',
          insert-grown pp va perm v small e f gone ∙ runs,
          (at, λ vb ne away. others vb ne away ∙ translate-grown small f va v gone vb away),
        )
