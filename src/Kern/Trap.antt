-- ===== src/Kern/Trap.antt =====
-- The trap handlers of lab/kern/trap.c. The big kernel lock, the per-CPU status word, and the halt
-- after another CPU's panic are not modelled; printing is left out.
pub mod Fault
mod Tests
pub mod Upcall
use adv_os_jos.Prelude.{
  ℕ, ◌+◌, ◌-◌, ◌*◌, ◌/◌, ◌%◌, ◌^◌, bit_and, bit_or, Bool, true, false, not, ◌&&◌, ◌||◌, Option,
  none, some, List, [], ◌∷◌, ◌==◌, ltb, leb, if◌then◌else◌, ℤ, pos, negsuc, is_neg,
}
use adv_os_jos.Kern.Machine.{
  Kernel, Env, Status, dying, running, Trapframe, PushRegs, Run, ok, Cmd, pure, fail, gets, modify,
  deref, ◌>>=◌, ◌>>◌, set_env, write_word, pgsize, pdx, ptx, pte_addr, pte_p, pte_w, pte_u,
  has_bits, utop, fl_if,
}
use adv_os_jos.Kern.Mmu.{store_at}
use adv_os_jos.Kern.UserMem.{user_mem_check}
use adv_os_jos.Kern.Env.{same_status}
use adv_os_jos.Kern.Sched.{env_free, env_destroy, env_run, sched_yield, cur_running}
use adv_os_jos.Kern.Syscall.{syscall}

abbrev pub gd_kt : ℕ
gd_kt = 8

abbrev pub uxstacktop : ℕ
uxstacktop = utop

-- sizeof(struct UTrapframe)
abbrev pub utf_size : ℕ
utf_size = 52

-- user_mem_assert of lab/kern/pmap.c. env_destroy of the current environment does not return.
unfoldable pub user_mem_assert : (e va len perm : ℕ) → Cmd (Unit {0})
user_mem_assert e va len perm = do
  env ← gets (λ k. k.envs e)
  r ← user_mem_check env va len (bit_or perm pte_u)
  if is_neg r then env_destroy e else pure tt

-- Words stored at their offsets, in words, from `va`.
pub store_all : (va : ℕ) → List (ℕ × ℕ) → Cmd (Unit {0})
store_all va [] = pure tt
store_all va ((offset, w) ∷ ws) = store_at ((va + 4 * offset) % 2 ^ 32) w >> store_all va ws

-- The fields of struct UTrapframe by their offsets, in the order in which the handler fills them.
abbrev pub upcall_frame : (fault_va : ℕ) → Trapframe → List (ℕ × ℕ)
upcall_frame fault_va tf =
    let regs = tf.tf_regs in
    (0, fault_va)
    ∷ (1, tf.tf_err)
    ∷ (2, regs.reg_edi)
    ∷ (3, regs.reg_esi)
    ∷ (4, regs.reg_ebp)
    ∷ (5, regs.reg_oesp)
    ∷ (6, regs.reg_ebx)
    ∷ (7, regs.reg_edx)
    ∷ (8, regs.reg_ecx)
    ∷ (9, regs.reg_eax)
    ∷ (10, tf.tf_eip)
    ∷ (12, tf.tf_esp)
    ∷ (11, tf.tf_eflags)
    ∷ []

-- `usertf`
abbrev pub frame_place : (esp : ℕ) → ℕ
frame_place esp =
    if ltb esp uxstacktop && leb (uxstacktop - pgsize) esp
    then (esp + 2 ^ 32 - 4 - utf_size) % 2 ^ 32
    else uxstacktop - utf_size

-- A trap frame is the environment's `env_tf`, or stands on the kernel's stack, which a trap never
-- returns to.
abbrev pub set_tf : (place : Option ℕ) → (Trapframe → Trapframe) → Cmd (Unit {0})
set_tf none f = pure tt
set_tf (some e) f = modify (λ k. set_env e (record (k.envs e) { env_tf = f (k.envs e).env_tf }) k)

-- page_fault_handler, with the register CR2.
unfoldable pub page_fault_handler :
    (fault_va : ℕ) (place : Option ℕ) (tf : Trapframe) → Cmd (Unit {0})
unfolding store_all
page_fault_handler fault_va place tf = if bit_and tf.tf_cs 0x11 == 0 then fail else do
  cur ← gets (λ k. k.curenv)
  c ← deref cur
  upcall ← gets (λ k. (k.envs c).env_pgfault_upcall)
  if upcall == 0 then env_destroy c else pure tt
  let usertf = frame_place tf.tf_esp
  user_mem_assert c usertf utf_size (bit_or (bit_or pte_u pte_p) pte_w)
  store_all usertf (upcall_frame fault_va tf)
  set_tf place (λ t. record t { tf_esp = usertf; tf_eip = upcall })
  env_run c

-- the word that an int32_t is
abbrev pub as_word : ℤ → ℕ
as_word (pos n) = n % 2 ^ 32
as_word (negsuc n) = 2 ^ 32 - 1 - n % 2 ^ 32

-- trap_dispatch and trap, given the monitor, the console's interrupts and system calls, and what a
-- user pointer to a trap frame leads to.
module _ (monitor kbd_intr serial_intr : Cmd (Unit {0})) (sys_cputs : (s len : ℕ) → Cmd (Unit {0}))
    (sys_cgetc : Cmd ℤ) (tf_at : ℕ → Trapframe) where
  abbrev pub run_syscall : (place : Option ℕ) (tf : Trapframe) → Cmd (Unit {0})
  run_syscall place tf = do
    let regs = tf.tf_regs
    r ←
        syscall sys_cputs sys_cgetc tf_at regs.reg_eax regs.reg_edx regs.reg_ecx regs.reg_ebx
          regs.reg_edi regs.reg_esi
    set_tf place (λ t. record t { tf_regs = record t.tf_regs { reg_eax = as_word r } })

  -- `default`
  abbrev pub unexpected : (tf : Trapframe) → Cmd (Unit {0})
  unexpected tf =
      if tf.tf_cs == gd_kt
      then fail
      else do cur ← gets (λ k. k.curenv); c ← deref cur; env_destroy c

  unfoldable pub trap_dispatch : (fault_va : ℕ) (place : Option ℕ) (tf : Trapframe) → Cmd (Unit {0})
  trap_dispatch fault_va place tf =
      if tf.tf_trapno == 39
      then pure tt
      else if tf.tf_trapno == 3
      then monitor
      else if tf.tf_trapno == 14
      then page_fault_handler fault_va place tf
      else if tf.tf_trapno == 48
      then run_syscall place tf
      else if tf.tf_trapno == 32
      then sched_yield
      else if tf.tf_trapno == 33
      then kbd_intr
      else if tf.tf_trapno == 36
      then serial_intr
      else unexpected tf

  -- The end of trap.
  leave : Cmd (Unit {0})
  leave = do
    k ← gets (λ k. k)
    if cur_running k k.curenv then (do c ← deref k.curenv; env_run c) else sched_yield

  -- A trap from user mode: where the frame is then, or nothing if the environment was a zombie.
  save_frame : (tf : Trapframe) → Cmd ℕ
  save_frame tf = do
    cur ← gets (λ k. k.curenv)
    c ← deref cur
    env ← gets (λ k. k.envs c)
    if same_status env.env_status dying
        then (do env_free c; modify (λ k. record k { curenv = none }); sched_yield)
        else pure tt
    modify (λ k. set_env c (record (k.envs c) { env_tf = tf }) k)
    pure c

  -- `eflags` and `fault_va` are the registers.
  unfoldable pub trap : (eflags fault_va : ℕ) (tf : Trapframe) → Cmd (Unit {0})
  unfolding leave save_frame
  trap eflags fault_va tf =
      if has_bits eflags fl_if
      then fail
      else if bit_and tf.tf_cs 3 == 3
      then (do c ← save_frame tf; trap_dispatch fault_va (some c) tf; leave)
      else (do trap_dispatch fault_va none tf; leave)
