-- ===== src/Kern/Syscall.antt =====
-- The system calls of lab/kern/syscall.c, and their dispatcher.
pub mod Dispatch
pub mod Process
pub mod Memory
pub mod Ipc
use adv_os_jos.Prelude.{ℕ, ℤ, pos, ◌==◌, if◌then◌else◌}
use adv_os_jos.Kern.Machine.{Kernel, Run, ok, panic, Trapframe, Cmd, pure, fail, ◌>>=◌, ◌>>◌}
use adv_os_jos.Kern.Syscall.Process.{
  sys_getenvid, sys_env_destroy, sys_yield, sys_exofork, sys_env_set_status, sys_env_set_trapframe,
  sys_env_set_pgfault_upcall,
}
use adv_os_jos.Kern.Syscall.Memory.{sys_page_alloc, sys_page_map, sys_page_unmap}
use adv_os_jos.Kern.Syscall.Ipc.{sys_ipc_try_send, sys_ipc_recv}

-- syscall, given the console's sys_cputs and sys_cgetc and the trap frame that a user pointer leads
-- to. SYS_yield runs into the case of SYS_exofork.
unfoldable pub syscall :
    (sys_cputs : (s len : ℕ) → Cmd (Unit {0})) (sys_cgetc : Cmd ℤ) (frame_at : ℕ → Trapframe)
    → (syscallno a1 a2 a3 a4 a5 : ℕ) → Cmd ℤ
syscall sys_cputs sys_cgetc frame_at n a1 a2 a3 a4 a5 =
    if n == 0
    then (sys_cputs a1 a2 >> pure (pos 0))
    else if n == 1
    then sys_cgetc
    else if n == 2
    then sys_getenvid
    else if n == 3
    then sys_env_destroy a1
    else if n == 4
    then sys_page_alloc a1 a2 a3
    else if n == 5
    then sys_page_map a1 a2 a3 a4 a5
    else if n == 6
    then sys_page_unmap a1 a2
    else if n == 7
    then sys_exofork
    else if n == 8
    then sys_env_set_status a1 a2
    else if n == 9
    then sys_env_set_trapframe a1 (frame_at a2)
    else if n == 10
    then sys_env_set_pgfault_upcall a1 a2
    else if n == 11
    then (sys_yield >> sys_exofork)
    else if n == 12
    then sys_ipc_try_send a1 a2 a3 a4
    else if n == 13
    then sys_ipc_recv a1
    else fail
