-- ===== src/Kern/Syscall/Memory.antt =====
-- The system calls of lab/kern/syscall.c on pages.
pub mod Grant
use adv_os_jos.Prelude.{
  ℕ, ◌%◌, Bool, true, not, ◌&&◌, ◌||◌, Option, none, some, ◌==◌, leb, if◌then◌else◌, ℤ, pos, neg,
  is_neg,
}
use adv_os_jos.Kern.Machine.{
  ok, Cmd, pure, gets, deref, ◌>>=◌, ◌>>◌, pgsize, utop, pte_p, pte_w, pte_u, has_bits, e_inval,
  e_no_mem,
}
use adv_os_jos.Kern.Page.{page_alloc, page_free, alloc_zero}
use adv_os_jos.Kern.Pgdir.{load, page_insert, page_lookup, page_remove}
use adv_os_jos.Kern.Env.{envid2env}

-- `!(perm & PTE_U) && !(perm & PTE_P) && !(perm & ~(PTE_SYSCALL))`
abbrev pub bad_perm : ℕ → Bool
bad_perm perm =
    not (has_bits perm pte_u) && not (has_bits perm pte_p) && not (has_bits perm 0xfffff1f8)

-- `va >= UTOP || va % PGSIZE != 0`
abbrev pub bad_va : ℕ → Bool
bad_va va = leb utop va || not (va % pgsize == 0)

-- the directory of an environment that envid2env found
abbrev pub pgdir_of : Option ℕ → Cmd ℕ
pgdir_of found = do e ← deref found; dir ← gets (λ k. (k.envs e).env_pgdir); deref dir

-- sys_page_alloc once it has a page
alloc_at : (envid va perm page : ℕ) → Cmd ℤ
alloc_at envid va perm page = do
  (r, found) ← envid2env envid true
  if is_neg r then pure r else do
    dir ← pgdir_of found
    code ← page_insert dir page va perm
    if is_neg code then (do page_free (some page); pure code) else pure (pos 0)

-- The errors of sys_page_alloc itself are returned without the sign.
unfoldable pub sys_page_alloc : (envid va perm : ℕ) → Cmd ℤ
unfolding alloc_at
sys_page_alloc envid va perm =
    if bad_va va then pure (pos e_inval) else if bad_perm perm then pure (pos e_inval) else do
      page ← page_alloc alloc_zero
      (λ k. elim page [ none ↦ ok (pos e_no_mem) k | some p ↦ alloc_at envid va perm p k ])

-- sys_page_map once the source page and its entry are found
map_found : (dst : Option ℕ) → (dstva perm page : ℕ) → ℕ × ℕ → Cmd ℤ
map_found dst dstva perm page pte = if bad_perm perm then pure (neg e_inval) else do
  w ← load pte
  if not (has_bits w pte_w) && has_bits perm pte_w then pure (neg e_inval) else do
    dir ← pgdir_of dst
    code ← page_insert dir page dstva perm
    if is_neg code then pure code else pure (pos 0)

-- sys_page_map once the two environments are found
map_between : (src : Option ℕ) → (srcva : ℕ) → (dst : Option ℕ) → (dstva perm : ℕ) → Cmd ℤ
unfolding map_found
map_between src srcva dst dstva perm =
    if leb utop srcva || leb utop dstva
    then pure (neg e_inval)
    else if not (srcva % pgsize == 0) || not (dstva % pgsize == 0)
    then pure (neg e_inval)
    else do
      dir ← pgdir_of src
      found ← page_lookup dir srcva
      (λ k. elim found [
        | none ↦ ok (neg e_inval) k
        | some (page, pte) ↦ map_found dst dstva perm page pte k
      ])

unfoldable pub sys_page_map : (srcenvid srcva dstenvid dstva perm : ℕ) → Cmd ℤ
unfolding map_between
sys_page_map srcenvid srcva dstenvid dstva perm = do
  (r, src) ← envid2env srcenvid true
  if is_neg r then pure r else do
    (r', dst) ← envid2env dstenvid true
    if is_neg r' then pure r' else map_between src srcva dst dstva perm

unfoldable pub sys_page_unmap : (envid va : ℕ) → Cmd ℤ
sys_page_unmap envid va = do
  (r, found) ← envid2env envid true
  if is_neg r
      then pure r
      else if bad_va va
      then pure (neg e_inval)
      else do dir ← pgdir_of found; page_remove dir va; pure (pos 0)
