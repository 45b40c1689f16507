-- ===== src/Kern/UserMem.antt =====
-- user_mem_check of lab/kern/pmap.c: may a program access a range of memory?
pub mod Check
pub mod Range
use adv_os_jos.Prelude.{
  ℕ, zero, suc, ◌+◌, ◌-◌, ◌/◌, ◌%◌, ◌^◌, bit_and, Bool, true, false, not, ◌||◌, ◌==◌, ltb, leb,
  if◌then◌else◌, ℤ, pos, neg,
}
use adv_os_jos.Kern.Machine.{
  Kernel, Env, Run, ok, Cmd, pure, gets, modify, deref, ◌>>=◌, ◌>>◌, kaddr, pgsize, ulim, pdx, ptx,
  pte_addr, pte_p, has_bits, rounddown, roundup, e_fault,
}

-- `user_mem_check_addr = ...; return -E_FAULT;`
fault_at : ℕ → Cmd ℤ
fault_at a = do modify (λ k. record k { user_mem_check_addr = a }); pure (neg e_fault)

-- `(va_beg2 > va_beg) ? va_beg2 : va_beg`
abbrev pub first_bad : (va_beg a : ℕ) → ℕ
first_bad va_beg a = if ltb va_beg a then a else va_beg

-- The `while (va_beg2 < va_end2)`, on the rounds left, from the page at `a`.
pub check_pages : ℕ → (pgdir va_beg a perm : ℕ) → Cmd ℤ
unfolding fault_at
check_pages zero pgdir va_beg a perm = pure (pos 0)
check_pages (suc n) pgdir va_beg a perm = do
  pde ← gets (λ k. k.memory pgdir (pdx a))
  if not (has_bits pde pte_p) then fault_at (first_bad va_beg a) else do
    tab ← kaddr (pte_addr pde)
    pte ← gets (λ k. k.memory tab (ptx a))
    if not (bit_and pte perm == perm)
        then fault_at (first_bad va_beg a)
        else check_pages n pgdir va_beg (a + pgsize) perm

-- `va` and `len` are 32-bit words. The loop runs from ROUNDDOWN(va) to ROUNDUP(va + len).
unfoldable pub user_mem_check : Env → (va len perm : ℕ) → Cmd ℤ
unfolding fault_at check_pages
user_mem_check env va len perm =
    let va_end = (va + len) % 2 ^ 32 in
    if leb ulim va || leb ulim va_end then fault_at (if leb ulim va then va else ulim) else do
      pgdir ← deref env.env_pgdir
      check_pages ((roundup va_end pgsize - rounddown va pgsize) / pgsize) pgdir va
          (rounddown va pgsize) perm
