-- ===== src/Kern/Pgdir/Remove.antt =====
-- page_remove of lab/kern/pmap.c against the mapping of the directory.
use adv_os_jos.Prelude.{ℕ, ◌+◌, ◌-◌, ◌/◌, ◌%◌, ◌^◌, ◌≡◌, ◌≢◌, none, some, if◌then◌else◌, ◌∷◌}
use adv_os_jos.Kern.Machine.{Kernel, ok, pte_addr, pdx, ptx}
use adv_os_jos.Kern.Pgdir.{page_remove, tlb_invalidate, in_use}
use adv_os_jos.Kern.Pgdir.Translate.{
  table, translate, translate-some, IsDir, page_lookup-translate, uvpt_slot,
}
use adv_os_jos.Kern.Pgdir.Write.{
  poke, translate-written, translate-written_ne, dropped, ref-dropped, page_decref-dropped,
}

-- The page that an entry maps.
abbrev pub page_of : ℕ → ℕ
page_of w = pte_addr w / 2 ^ 12

-- The state after the entry of `va`, which held `w`, was cleared.
abbrev pub removed : (k : Kernel) (pgdir va w : ℕ) → Kernel
removed k pgdir va w = record (dropped (page_of w) k) {
  memory = poke k.memory (table k.memory pgdir (pdx va)) (ptx va) 0;
  flushed = if in_use k pgdir then va ∷ k.flushed else k.flushed;
}

-- page_remove took the entry `w` for `va` out of the directory.
abbrev pub Unmapped : (k : Kernel) (pgdir va w : ℕ) → Type 0
Unmapped k pgdir va w =
    (k' : Kernel) × (page_remove pgdir va k ≡ ok tt k')
    × (translate k'.memory pgdir va ≡ none)
    × ((vb : ℕ)
        → va / 4096 % 2 ^ 20 ≢ vb / 4096 % 2 ^ 20
        → translate k'.memory pgdir vb ≡ translate k.memory pgdir vb)
    × ((k'.pages (page_of w)).pp_ref ≡ ((k.pages (page_of w)).pp_ref + 2 ^ 16 - 1) % 2 ^ 16)

module _ {k : Kernel} {pgdir : ℕ} (v : IsDir k pgdir) (va : ℕ) where
  pub page_remove-removed :
      (w : ℕ)
      → translate k.memory pgdir va ≡ some w
      → page_remove pgdir va k ≡ ok tt (removed k pgdir va w)
  unfolding page_remove tlb_invalidate in_use
  page_remove-removed w h =
      rw (page_lookup-translate k pgdir va v, h, page_decref-dropped (page_of w) k)

  -- page_remove of a mapped page outside the window at UVPT clears its entry and drops one reference to the page; every other
  -- address is mapped as before.
  pub page_remove-unmaps :
      pdx va ≢ uvpt_slot → (w : ℕ) → translate k.memory pgdir va ≡ some w → Unmapped k pgdir va w
  page_remove-unmaps out w h =
      let here = (translate-some k.memory pgdir va w h).0 in
      (
        removed k pgdir va w,
        page_remove-removed w h,
        translate-written v va 0 out here,
        translate-written_ne v va 0 out here,
        ref-dropped (page_of w) k,
      )

  -- page_remove of an address that is not mapped changes nothing.
  pub page_remove-none : translate k.memory pgdir va ≡ none → page_remove pgdir va k ≡ ok tt k
  unfolding page_remove
  page_remove-none h = rw (page_lookup-translate k pgdir va v, h)
