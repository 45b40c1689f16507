-- ===== src/Kern/Sched.antt =====
-- env_free, env_destroy and env_run of lab/kern/env.c, and the scheduler of lab/kern/sched.c.
-- The big kernel lock, `env_cpunum` and the per-CPU status word are not modelled.
pub mod Choice
pub mod Running
use adv_os_jos.Prelude.{
  ℕ, zero, suc, ◌+◌, ◌*◌, ◌/◌, ◌%◌, ◌^◌, bit_or, Bool, true, false, not, ◌&&◌, ◌||◌, Option, none,
  some, ◌==◌, if◌then◌else◌,
}
use adv_os_jos.Kern.Machine.{
  Kernel, Env, Status, free, dying, runnable, running, not_runnable, Run, ok, user_mode, halted,
  in_monitor, Cmd, pure, gets, modify, deref, ◌>>=◌, ◌>>◌, set_env, page2pa, pa2page, kaddr, pdx,
  pte_addr, pte_p, has_bits, utop, nenv,
}
use adv_os_jos.Kern.Page.{page_decref}
use adv_os_jos.Kern.Pgdir.{load, store, page_remove}
use adv_os_jos.Kern.Env.{same_status, same_ptr}

-- PGADDR(d, t, 0)
abbrev pub pgaddr : (d t : ℕ) → ℕ
pgaddr d t = bit_or (d * 2 ^ 22) (t * 2 ^ 12)

remove_entry : (e d t : ℕ) → Cmd (Unit {0})
remove_entry e d t = do
  pgdir ← gets (λ k. (k.envs e).env_pgdir)
  dir ← deref pgdir
  page_remove dir (pgaddr d t)

-- `for (pteno = 0; pteno <= PTX(~0); pteno++)`, on the rounds left.
unmap_entries : ℕ → (e d t tab : ℕ) → Cmd (Unit {0})
unfolding remove_entry
unmap_entries zero e d t tab = pure tt
unmap_entries (suc n) e d t tab = do
  w ← load (tab, t)
  if has_bits w pte_p then remove_entry e d t else pure tt
  unmap_entries n e d (t + 1) tab

-- one round of the loop over the directory, at a present page table
unmap_table : (e d dir pde : ℕ) → Cmd (Unit {0})
unfolding unmap_entries
unmap_table e d dir pde = do
  tab ← kaddr (pte_addr pde)
  unmap_entries 1024 e d 0 tab
  store (dir, d) 0
  pp ← pa2page (pte_addr pde)
  page_decref pp

-- `for (pdeno = 0; pdeno < PDX(UTOP); pdeno++)`, on the rounds left.
unmap_tables : ℕ → (e d : ℕ) → Cmd (Unit {0})
unfolding unmap_table
unmap_tables zero e d = pure tt
unmap_tables (suc n) e d = do
  pgdir ← gets (λ k. (k.envs e).env_pgdir)
  dir ← deref pgdir
  pde ← load (dir, d)
  (if has_bits pde pte_p then unmap_table e d dir pde else pure tt)
  unmap_tables n e (d + 1)

unfoldable pub env_free : (e : ℕ) → Cmd (Unit {0})
unfolding unmap_tables
env_free e = do
  modify (λ k. record k { cr3 = if same_ptr k.curenv e then k.kern_pgdir else k.cr3 })
  unmap_tables (pdx utop) e 0
  pgdir ← gets (λ k. (k.envs e).env_pgdir)
  dir ← deref pgdir
  modify (λ k. set_env e (record (k.envs e) { env_pgdir = none }) k)
  pp ← pa2page (page2pa dir)
  page_decref pp
  modify (λ k. set_env e (record (k.envs e) { env_status = free; env_link = k.env_free_list }) k)
  modify (λ k. record k { env_free_list = some e })

-- `curenv->env_status = ENV_RUNNABLE` where the current environment was running
abbrev pub preempt : Kernel → Option ℕ → Kernel
preempt k none = k
preempt k (some c) =
    if same_status (k.envs c).env_status running
    then set_env c (record (k.envs c) { env_status = runnable }) k
    else k

-- the state in which env_run leaves the kernel
abbrev pub switched : Kernel → ℕ → Kernel
switched k e =
    record (set_env e
      (record (k.envs e) { env_status = running; env_runs = ((k.envs e).env_runs + 1) % 2 ^ 32 })
      k) { curenv = some e }

-- env_run does not return.
unfoldable pub env_run : (e : ℕ) → Cmd (Unit {0})
env_run e = do
  modify (λ k. preempt k k.curenv)
  modify (λ k. switched k e)
  pgdir ← gets (λ k. (k.envs e).env_pgdir)
  dir ← deref pgdir
  modify (λ k. record k { cr3 = dir })
  user_mode

-- The search of sched_yield, on the rounds left: where the loop stops.
pub search_from : ℕ → ℕ → Kernel → ℕ
search_from zero i k = i
search_from (suc n) i k =
    let next = search_from n ((i + 1) % nenv) k in
    if same_status (k.envs i).env_status runnable then i else next

-- `for (i = 0; i < NENV; i++)`: is there an environment that keeps the system going?
alive_from : ℕ → ℕ → Kernel → Bool
alive_from zero i k = false
alive_from (suc n) i k =
    let next = alive_from n (i + 1) k in
    if same_status (k.envs i).env_status runnable
      || same_status (k.envs i).env_status running
      || same_status (k.envs i).env_status dying
    then true
    else next

unfoldable pub sched_halt : Cmd (Unit {0})
unfolding alive_from
sched_halt k =
    if not (alive_from nenv 0 k)
    then in_monitor k
    else halted (record k { curenv = none; cr3 = k.kern_pgdir })

-- where the search begins
abbrev pub search_start : Option ℕ → ℕ
search_start none = 0
search_start (some c) = (c + 1) % nenv

-- `curenv && curenv->env_status == ENV_RUNNING`
abbrev pub cur_running : Kernel → Option ℕ → Bool
cur_running k none = false
cur_running k (some c) = same_status (k.envs c).env_status running

-- sched_yield does not return.
unfoldable pub sched_yield : Cmd (Unit {0})
unfolding search_from
sched_yield = do
  k ← gets (λ k. k)
  let i = search_from nenv (search_start k.curenv) k
  if same_status (k.envs i).env_status runnable
      then env_run i
      else if cur_running k k.curenv
      then (do c ← deref k.curenv; env_run c)
      else sched_halt

unfoldable pub env_destroy : (e : ℕ) → Cmd (Unit {0})
env_destroy e = do
  k ← gets (λ k. k)
  if same_status (k.envs e).env_status running && not (same_ptr k.curenv e)
      then modify (set_env e (record (k.envs e) { env_status = dying }))
      else (do
        env_free e
        cur ← gets (λ k'. k'.curenv)
        if same_ptr cur e
            then (do modify (λ k'. record k' { curenv = none }); sched_yield)
            else pure tt)
