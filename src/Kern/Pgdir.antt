-- ===== src/Kern/Pgdir.antt =====
-- The page tables of lab/kern/pmap.c: a walk of the two levels, and what maps, looks up and unmaps
-- a page. A `pte_t *` is the frame of its page table and the index there.
pub mod Entry
pub mod Grow
pub mod Insert
pub mod Maps
pub mod Remove
pub mod Translate
pub mod Write
use adv_os_jos.Prelude.{
  ℕ, zero, suc, ◌+◌, ◌-◌, ◌*◌, ◌/◌, ◌%◌, ◌^◌, bit_or, Bool, true, false, not, ◌&&◌, ◌||◌, Option,
  none, some, List, [], ◌∷◌, ◌==◌, ltb, leb, if◌then◌else◌, ℤ, pos, neg,
}
use adv_os_jos.Kern.Machine.{
  Kernel, Run, ok, Cmd, pure, fail, gets, modify, deref, ◌>>=◌, ◌>>◌, set_ref, write_word,
  zero_frame, page2pa, page2kva, kaddr, pgsize, pgnum, pdx, ptx, pte_addr, pte_p, pte_w, pte_u,
  pte_pwt, pte_pcd, has_bits, rounddown, roundup, e_no_mem,
}
use adv_os_jos.Kern.Page.{page_alloc, page_decref}

abbrev pub PtePtr : Type 0
PtePtr = ℕ × ℕ

abbrev pub load : PtePtr → Cmd ℕ
load (frame, i) = gets (λ k. k.memory frame i)

abbrev pub store : PtePtr → ℕ → Cmd (Unit {0})
store (frame, i) w = modify (write_word frame i w)

abbrev pub inc_ref : ℕ → Cmd (Unit {0})
inc_ref pp = modify (λ k. set_ref pp ((k.pages pp).pp_ref + 1) k)

-- The new page table `pp`: counted, cleared, and entered in the directory.
new_table : (pgdir va pp : ℕ) → Cmd (Option PtePtr)
new_table pgdir va pp = do
  inc_ref pp
  tab ← page2kva pp
  modify (zero_frame tab)
  store (pgdir, pdx va) (bit_or (bit_or (bit_or (page2pa pp) pte_p) pte_w) pte_u)
  pure (some (tab, ptx va))

unfoldable pub pgdir_walk : (pgdir va : ℕ) (create : Bool) → Cmd (Option PtePtr)
unfolding new_table
pgdir_walk pgdir va create = do
  pde ← load (pgdir, pdx va)
  if has_bits pde pte_p
      then (do tab ← kaddr (pte_addr pde); pure (some (tab, ptx va)))
      else if not create
      then pure none
      else do
        page ← page_alloc pgsize
        (λ k. elim page [ none ↦ ok none k | some pp ↦ new_table pgdir va pp k ])

-- The `while (size)` of boot_map_region, with the rounds left.
map_pages : ℕ → (pgdir va pa perm : ℕ) → Cmd (Unit {0})
map_pages zero pgdir va pa perm = pure tt
map_pages (suc n) pgdir va pa perm = do
  p ← pgdir_walk pgdir va true
  pte ← deref p
  store pte (bit_or (bit_or pa perm) pte_p)
  map_pages n pgdir ((va + pgsize) % 2 ^ 32) ((pa + pgsize) % 2 ^ 32) perm

unfoldable pub boot_map_region : (pgdir va size pa perm : ℕ) → Cmd (Unit {0})
unfolding map_pages
boot_map_region pgdir va size pa perm =
    map_pages (roundup size pgsize / pgsize) pgdir (rounddown va pgsize) (rounddown pa pgsize) perm

-- The page and the entry that maps it, `none` for NULL. `*pte_store` is the second part.
unfoldable pub page_lookup : (pgdir va : ℕ) → Cmd (Option (ℕ × PtePtr))
page_lookup pgdir va = do
  p ← pgdir_walk pgdir va false
  (λ k. elim p [
    | none ↦ ok none k
    | some pte ↦
        (do
          w ← load pte
          if has_bits w pte_p then pure (some (pte_addr w / 2 ^ 12, pte)) else pure none)
          k
  ])

-- `curenv->env_pgdir == pgdir`
env_uses : Option ℕ → ℕ → Bool
env_uses none pgdir = false
env_uses (some d) pgdir = d == pgdir

-- `!curenv || curenv->env_pgdir == pgdir`
pub in_use : Kernel → ℕ → Bool
unfolding env_uses
in_use k pgdir = elim k.curenv [ none ↦ true | some e ↦ env_uses (k.envs e).env_pgdir pgdir ]

unfoldable pub tlb_invalidate : (pgdir va : ℕ) → Cmd (Unit {0})
unfolding in_use
tlb_invalidate pgdir va =
    modify (λ k. record k { flushed = if in_use k pgdir then va ∷ k.flushed else k.flushed })

unfoldable pub page_remove : (pgdir va : ℕ) → Cmd (Unit {0})
page_remove pgdir va = do
  found ← page_lookup pgdir va
  (λ k. elim found [
    | none ↦ ok tt k
    | some (pp, pte) ↦ (do page_decref pp; store pte 0; tlb_invalidate pgdir va) k
  ])

-- page_insert once the entry for `va` is there.
insert_at : (pgdir pp va perm : ℕ) → PtePtr → Cmd ℤ
insert_at pgdir pp va perm pte = do
  w ← load pte
  if has_bits w pte_p
      then (if pte_addr w == page2pa pp
          then (do store pte (bit_or (bit_or (page2pa pp) pte_p) perm); pure (pos 0))
          else (do
            page_remove pgdir va
            store pte (bit_or (bit_or (page2pa pp) pte_p) perm)
            inc_ref pp
            pure (pos 0)))
      else (do store pte (bit_or (bit_or (page2pa pp) pte_p) perm); inc_ref pp; pure (pos 0))

unfoldable pub page_insert : (pgdir pp va perm : ℕ) → Cmd ℤ
unfolding insert_at
page_insert pgdir pp va perm = do
  p ← pgdir_walk pgdir va true
  (λ k. elim p [ none ↦ ok (neg e_no_mem) k | some pte ↦ insert_at pgdir pp va perm pte k ])

unfoldable mmio_map_region : (pa size : ℕ) → Cmd ℕ
mmio_map_region pa size = do
  save ← gets (λ k. k.mmio_base)
  kern ← gets (λ k. k.kern_pgdir)
  boot_map_region kern save (roundup size pgsize) pa
      (bit_or (bit_or (bit_or pte_w pte_p) pte_pcd) pte_pwt)
  modify (λ k. record k { mmio_base = (k.mmio_base + roundup size pgsize) % 2 ^ 32 })
  pure save
