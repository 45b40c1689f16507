-- ===== src/Kern/Page/Init.antt =====
-- page_init of lab/kern/pmap.c: the free list at boot.
pub mod Links
pub mod Usable
use adv_os_jos.Prelude.{
  ℕ, zero, suc, ◌+◌, ◌-◌, ◌/◌, true, false, Option, none, some, ◌==◌, ltb, max, if◌then◌else◌,
}
use adv_os_jos.Kern.Machine.{
  Kernel, Cmd, pure, fail, gets, modify, deref, ◌>>=◌, ◌>>◌, set_link, set_ref, pgsize, roundup,
  kernbase, mpentry_paddr,
}
use adv_os_jos.Kern.Page.{boot_alloc}

-- `for (i = 1; i < npages; i++)`: every page but the first is marked used. `n` rounds are left.
pub mark_used : ℕ → ℕ → Kernel → Kernel
mark_used zero i k = k
mark_used (suc n) i k = mark_used n (i + 1) (set_link i none (set_ref i 1 k))

-- The first page becomes the head of the list, a later one follows `prev` and page `i - 1`.
pub link_base : ℕ → Option ℕ → Cmd (Unit {0})
link_base i prev = λ k. elim k.page_free_list [
  | none ↦ modify (λ k'. record k' { page_free_list = some i }) k
  | some _ ↦ (do p ← deref prev; modify (set_link p (some i)); modify (set_link (i - 1) (some i))) k
]

-- `for (i = 1; i < npages_basemem; ++i)`. `prev` is the last page linked; `n` rounds are left.
pub free_base : ℕ → ℕ → Option ℕ → Cmd (Unit {0})
unfolding link_base
free_base zero i prev = pure tt
free_base (suc n) i prev = λ k. elim (i == mpentry_paddr / pgsize) [
  | true ↦ free_base n (i + 1) prev k
  | false ↦
      (do
        modify (set_ref i 0)
        modify (set_link i none)
        link_base i prev
        free_base n (i + 1) (some i))
        k
]

-- The second loop, over the pages behind the kernel; page `i` is linked behind `track`.
pub free_extended : ℕ → ℕ → ℕ → Kernel → Kernel
free_extended zero i track k = k
free_extended (suc n) i track k =
    free_extended n (i + 1) i (set_link track (some i) (set_link i none (set_ref i 0 k)))

pub page_init : (end : ℕ) → Cmd (Unit {0})
unfolding mark_used free_base free_extended
page_init end = do
  modify (λ k. mark_used (k.npages - 1) 1 k)
  modify (λ k. record k { page_free_list = none })
  k ← gets (λ k. k)
  free_base (k.npages_basemem - 1) 1 none
  kva ← boot_alloc end 0
  if ltb kva kernbase then fail else do
    let first = roundup (kva - kernbase) pgsize / pgsize
    modify (λ k. free_extended (k.npages - first) first (max 1 k.npages_basemem - 1) k)
