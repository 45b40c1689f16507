-- ===== src/Kern/Syscall/Ipc.antt =====
-- The message passing of lab/kern/syscall.c.
pub mod Rendezvous
pub mod Send
use adv_os_jos.Prelude.{
  ℕ, ◌+◌, ◌%◌, ◌^◌, bit_and, Bool, true, false, not, ◌&&◌, ◌||◌, Option, none, some, ◌==◌, ltb, leb,
  if◌then◌else◌, ℤ, pos, neg, is_neg,
}
use adv_os_jos.Kern.Machine.{
  Kernel, Env, Status, runnable, not_runnable, Run, ok, Cmd, pure, gets, modify, deref, ◌>>=◌, ◌>>◌,
  set_env, pgsize, utop, pte_p, pte_w, pte_u, has_bits, e_bad_env, e_inval, e_no_mem,
  e_ipc_not_recv,
}
use adv_os_jos.Kern.Pgdir.{load, page_insert, page_lookup}
use adv_os_jos.Kern.Env.{envid2env}
use adv_os_jos.Kern.Sched.{sched_yield}
use adv_os_jos.Kern.Syscall.Memory.{bad_perm, pgdir_of}

-- the receiver as a successful send leaves it
abbrev pub delivered : Env → (from value perm : ℕ) → Env
delivered env from value perm = record env {
  env_ipc_perm = perm;
  env_ipc_recving = false;
  env_ipc_from = from;
  env_tf = record env.env_tf { tf_regs = record env.env_tf.tf_regs { reg_eax = 0 } };
  env_ipc_value = value;
  env_status = runnable;
}

-- The end of sys_ipc_try_send.
deliver : (target value perm : ℕ) → Cmd ℤ
deliver target value perm = do
  k ← gets (λ k. k)
  c ← deref k.curenv
  modify (set_env target (delivered (k.envs target) (k.envs c).env_id value perm))
  pure (pos 0)

-- the page `page` of the sender, mapped by the entry `pte`
send_page : (target value perm page : ℕ) → ℕ × ℕ → Cmd ℤ
unfolding deliver
send_page target value perm page pte = do
  w ← load pte
  if has_bits perm pte_w && not (has_bits w pte_w) then pure (neg e_inval) else do
    dstva ← gets (λ k. (k.envs target).env_ipc_dstva)
    if dstva == 0 then deliver target value perm else do
      dir ← pgdir_of (some target)
      r ← page_insert dir page dstva perm
      if is_neg r then pure (neg e_no_mem) else deliver target value perm

-- a send with a source address below UTOP to a receiver that wants a page
send_from : (target value srcva perm : ℕ) → Cmd ℤ
unfolding send_page
send_from target value srcva perm =
    if not (srcva % pgsize == 0)
    then pure (neg e_inval)
    else if bad_perm perm
    then pure (neg e_inval)
    else do
      cur ← gets (λ k. k.curenv)
      dir ← pgdir_of cur
      found ← page_lookup dir srcva
      (λ k. elim found [
        | none ↦ ok (neg e_inval) k
        | some (page, pte) ↦ send_page target value perm page pte k
      ])

unfoldable pub sys_ipc_try_send : (envid value srcva perm : ℕ) → Cmd ℤ
unfolding send_from deliver
sys_ipc_try_send envid value srcva perm = do
  (r, found) ← envid2env envid false
  if is_neg r then pure (neg e_bad_env) else do
    target ← deref found
    env ← gets (λ k. k.envs target)
    if not env.env_ipc_recving
        then pure (neg e_ipc_not_recv)
        else if ltb srcva utop && ltb env.env_ipc_dstva utop
        then send_from target value srcva perm
        else deliver target value 0

-- the caller as it waits
abbrev pub waiting : Env → Env
waiting env = record env { env_ipc_recving = true; env_status = not_runnable }

-- The end of sys_ipc_recv; sched_yield does not return.
block : Cmd ℤ
block = do
  k ← gets (λ k. k)
  c ← deref k.curenv
  modify (set_env c (waiting (k.envs c)))
  sched_yield
  pure (pos 0)

unfoldable pub sys_ipc_recv : (dstva : ℕ) → Cmd ℤ
unfolding block
sys_ipc_recv dstva =
    if ltb dstva utop
    then (if not (dstva % pgsize == 0) then pure (neg e_inval) else (do
      k ← gets (λ k. k)
      c ← deref k.curenv
      modify (set_env c (record (k.envs c) { env_ipc_dstva = dstva }))
      block))
    else block
