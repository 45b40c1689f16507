-- ===== src/Kern/Pgdir/Insert.antt =====
-- page_insert of lab/kern/pmap.c against the mapping of the directory.
use adv_os_jos.Prelude.{
  ℕ, ◌+◌, ◌≡◌, ◌≢◌, refl, ap, true, false, ◌==◌, ==_iff, ==_ne, ℕ_discrete, Option, none, some, pos,
}
use adv_os_jos.Kern.Machine.{Kernel, ok, pte_addr, pdx, ptx, page2pa, set_ref}
use adv_os_jos.Kern.Pgdir.{page_insert}
use adv_os_jos.Kern.Pgdir.Entry.{entry}
use adv_os_jos.Kern.Pgdir.Translate.{
  Memory, present, table, translate, translate-some, translate-none, IsDir, walk-present,
}
use adv_os_jos.Kern.Pgdir.Write.{poke, poke-poke}
use adv_os_jos.Kern.Pgdir.Remove.{removed, page_remove-removed}

-- The state after `pp` was entered at the present table of `va`: on an absent entry, on an entry of
-- the same page, and on an entry `w` of another page.
abbrev pub entered : (k : Kernel) (pgdir va pp perm : ℕ) → Memory
entered k pgdir va pp perm = poke k.memory (table k.memory pgdir (pdx va)) (ptx va) (entry pp perm)

module _ {k : Kernel} {pgdir : ℕ} (v : IsDir k pgdir) (pp va perm : ℕ)
    (here : present k.memory pgdir (pdx va) ≡ true) where
  insert-new :
      translate k.memory pgdir va ≡ none
      → page_insert pgdir pp va perm k
        ≡ ok (pos 0) (
            set_ref pp ((k.pages pp).pp_ref + 1) (record k { memory = entered k pgdir va pp perm }))
  unfolding page_insert translate
  insert-new h = rw (walk-present k pgdir va true v here, translate-none k.memory pgdir va here h)

  insert-same :
      (w : ℕ)
      → translate k.memory pgdir va ≡ some w
      → pte_addr w ≡ page2pa pp
      → page_insert pgdir pp va perm k
        ≡ ok (pos 0) (record k { memory = entered k pgdir va pp perm })
  unfolding page_insert translate
  insert-same w h e =
      let (_, at, set) = translate-some k.memory pgdir va w h in
      let test : (pte_addr w == page2pa pp) ≡ true = (==_iff _ _).1 e in
      rw (walk-present k pgdir va true v here, at, set, test)

  insert-other :
      (w : ℕ)
      → translate k.memory pgdir va ≡ some w
      → pte_addr w ≢ page2pa pp
      → let k1 = removed k pgdir va w in
        page_insert pgdir pp va perm k
        ≡ ok (pos 0) (
            set_ref pp
              ((k1.pages pp).pp_ref + 1)
              (record k1 { memory = entered k pgdir va pp perm }))
  unfolding page_insert translate
  insert-other w h ne =
      let (_, at, set) = translate-some k.memory pgdir va w h in
      let test : (pte_addr w == page2pa pp) ≡ false = ==_ne _ _ ne in
      let k1 = removed k pgdir va w in
      rw (walk-present k pgdir va true v here, at, set, test, page_remove-removed v va w h)
        (ap
          (λ (m : Memory).
            ok (pos 0) (set_ref pp ((k1.pages pp).pp_ref + 1) (record k1 { memory = m })))
          (poke-poke k.memory (table k.memory pgdir (pdx va)) (ptx va) 0 (entry pp perm)))

-- what the insertion ends with when the page table of `va` is there
pub record Inserted (k : Kernel) (pgdir pp va perm : ℕ) : Type 0 where
  pub after : Kernel
  pub runs : page_insert pgdir pp va perm k ≡ ok (pos 0) after
  pub memory : after.memory ≡ entered k pgdir va pp perm

module _ {k : Kernel} {pgdir : ℕ} (v : IsDir k pgdir) (pp va perm : ℕ)
    (here : present k.memory pgdir (pdx va) ≡ true) where
  pub insert-present : Inserted k pgdir pp va perm
  insert-present = by_mapping (translate k.memory pgdir va) refl
    where
      by_page :
          (w : ℕ)
          → translate k.memory pgdir va ≡ some w
          → Dec (pte_addr w ≡ page2pa pp)
          → Inserted k pgdir pp va perm
      by_page w h (yes e) = record {
        after = record k { memory = entered k pgdir va pp perm };
        runs = insert-same v pp va perm here w h e;
        memory = refl;
      }
      by_page w h (no ne) = record {
        after = _;
        runs = insert-other v pp va perm here w h ne;
        memory = refl;
      }

      by_mapping : (o : Option ℕ) → translate k.memory pgdir va ≡ o → Inserted k pgdir pp va perm
      by_mapping none h = record { after = _; runs = insert-new v pp va perm here h; memory = refl }
      by_mapping (some w) h = by_page w h (ℕ_discrete (pte_addr w) (page2pa pp))
