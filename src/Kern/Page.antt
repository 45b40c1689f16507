-- ===== src/Kern/Page.antt =====
-- The page allocator of lab/kern/pmap.c: pages are counted, and free pages are on a linked list.
pub mod Decref
pub mod FreeList
pub mod Init
use adv_os_jos.Prelude.{
  ℕ, ◌+◌, ◌-◌, ◌*◌, ◌/◌, ◌%◌, ◌^◌, Bool, true, false, not, ◌&&◌, Option, none, some, ◌==◌, ltb,
  if◌then◌else◌, zero, suc,
}
use adv_os_jos.Kern.Machine.{
  Kernel, Run, ok, panic, Cmd, pure, fail, gets, modify, deref, ◌>>=◌, ◌>>◌, set_link, set_ref,
  zero_frame, page2kva, pgsize, roundup, kernbase, mpentry_paddr,
}

-- `end` is the linker's symbol. The result is an address, 0 for NULL.
pub boot_alloc : (end n : ℕ) → Cmd ℕ
boot_alloc end n = do
  modify (λ k. record k { nextfree = if k.nextfree == 0 then roundup end pgsize else k.nextfree })
  result ← gets (λ k. k.nextfree)
  if n == 0 then pure result else do
    modify (λ k. record k { nextfree = (k.nextfree + roundup n pgsize) % 2 ^ 32 })
    k ← gets (λ k. k)
    if ltb k.nextfree kernbase
        then fail
        else if ltb (k.npages * pgsize % 2 ^ 32) (k.nextfree - kernbase)
        then pure 0
        else pure result

abbrev pub alloc_zero : ℕ
alloc_zero = 1

-- `if (alloc_flags && ALLOC_ZERO) memset(page2kva(allocPage), 0, PGSIZE)`
clear_if : ℕ → ℕ → Cmd (Unit {0})
clear_if alloc_flags pp =
    if not (alloc_flags == 0) && not (alloc_zero == 0)
    then (do kva ← page2kva pp; modify (zero_frame kva))
    else pure tt

-- the body of page_alloc once the free list is not empty
take_page : ℕ → ℕ → Cmd (Option ℕ)
unfolding clear_if
take_page alloc_flags pp = do
  modify (λ k. record k { page_free_list = (k.pages pp).pp_link })
  modify (set_link pp none)
  clear_if alloc_flags pp
  modify (set_ref pp 0)
  pure (some pp)

unfoldable pub page_alloc : ℕ → Cmd (Option ℕ)
unfolding take_page
page_alloc alloc_flags =
    λ k. elim k.page_free_list [ none ↦ ok none k | some pp ↦ take_page alloc_flags pp k ]

-- A null `pp` is dereferenced before the code tests it.
unfoldable pub page_free : Option ℕ → Cmd (Unit {0})
page_free p = do
  pp ← deref p
  k ← gets (λ k. k)
  if not ((k.pages pp).pp_ref == 0) then fail else do
    modify (set_link pp k.page_free_list)
    modify (λ k'. record k' { page_free_list = some pp })

unfoldable pub page_decref : ℕ → Cmd (Unit {0})
page_decref pp = do
  modify (λ k. set_ref pp ((k.pages pp).pp_ref + 2 ^ 16 - 1) k)
  r ← gets (λ k. (k.pages pp).pp_ref)
  if r == 0 then page_free (some pp) else pure tt
