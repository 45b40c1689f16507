-- ===== src/Kern/Syscall/Process.antt =====
-- The system calls of lab/kern/syscall.c on environments.
use adv_os_jos.Prelude.{
  ℕ, bit_and, bit_or, true, Option, none, some, ◌==◌, if◌then◌else◌, ℤ, pos, is_neg,
}
use adv_os_jos.Kern.Machine.{
  Env, Status, runnable, not_runnable, Trapframe, ok, Cmd, pure, fail, gets, modify, deref, ◌>>=◌,
  ◌>>◌, set_env, fl_if, e_inval,
}
use adv_os_jos.Kern.Env.{envid2env, env_alloc}
use adv_os_jos.Kern.Sched.{sched_yield, env_destroy}

unfoldable pub sys_getenvid : Cmd ℤ
sys_getenvid = do k ← gets (λ k. k); c ← deref k.curenv; pure (pos (k.envs c).env_id)

unfoldable pub sys_env_destroy : (envid : ℕ) → Cmd ℤ
sys_env_destroy envid = do
  (r, found) ← envid2env envid true
  if is_neg r then pure r else (do e ← deref found; env_destroy e; pure (pos 0))

unfoldable pub sys_yield : Cmd (Unit {0})
sys_yield = sched_yield

-- the child as sys_exofork leaves it: not runnable, with the caller's registers and `eax` 0
abbrev pub forked : (child parent : Env) → Env
forked child parent = record child {
  env_status = not_runnable;
  env_tf = record parent.env_tf { tf_regs = record parent.env_tf.tf_regs { reg_eax = 0 } };
}

unfoldable pub sys_exofork : Cmd ℤ
sys_exofork = do
  k ← gets (λ k. k)
  c ← deref k.curenv
  (r, found) ← env_alloc (k.envs c).env_id
  if is_neg r then pure r else do
    e ← deref found
    cur ← gets (λ k'. k'.curenv)
    p ← deref cur
    modify (λ k'. set_env e (forked (k'.envs e) (k'.envs p)) k')
    id ← gets (λ k'. (k'.envs e).env_id)
    pure (pos id)

-- ENV_RUNNABLE is 2 and ENV_NOT_RUNNABLE is 4.
abbrev pub settable : ℕ → Option Status
settable status =
    if status == 2 then some runnable else if status == 4 then some not_runnable else none

-- An invalid status returns E_INVAL, without the sign.
unfoldable pub sys_env_set_status : (envid status : ℕ) → Cmd ℤ
sys_env_set_status envid status = do
  (r, found) ← envid2env envid true
  if is_neg r then pure r else do
    e ← deref found
    (λ k. elim (settable status) [
      | none ↦ ok (pos e_inval) k
      | some s ↦ ok (pos 0) (set_env e (record (k.envs e) { env_status = s }) k)
    ])

-- the trap frame made safe: user segments, interrupts on, no I/O privilege
abbrev pub user_frame : Trapframe → Trapframe
user_frame tf = record tf {
  tf_ds = bit_or tf.tf_ds 3;
  tf_es = bit_or tf.tf_es 3;
  tf_ss = bit_or tf.tf_ss 3;
  tf_cs = bit_or tf.tf_cs 3;
  tf_eflags = bit_and (bit_or tf.tf_eflags fl_if) 0xffffcfff;
}

-- `tf` is the frame that the caller's pointer leads to. A bad id panics.
unfoldable pub sys_env_set_trapframe : (envid : ℕ) → Trapframe → Cmd ℤ
sys_env_set_trapframe envid tf = do
  (r, found) ← envid2env envid true
  if is_neg r then fail else do
    e ← deref found
    modify (λ k. set_env e (record (k.envs e) { env_tf = user_frame tf }) k)
    pure (pos 0)

unfoldable pub sys_env_set_pgfault_upcall : (envid func : ℕ) → Cmd ℤ
sys_env_set_pgfault_upcall envid func = do
  (r, found) ← envid2env envid true
  if is_neg r then pure r else do
    e ← deref found
    modify (λ k. set_env e (record (k.envs e) { env_pgfault_upcall = func }) k)
    pure (pos 0)
