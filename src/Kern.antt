-- ===== src/Kern.antt =====
-- The kernel: lab/kern, with the constants and structures of lab/inc that it uses.
pub mod Machine
pub mod Page
pub mod Pgdir
pub mod UserMem
pub mod Console
pub mod Env
pub mod Mmu
pub mod Sched
pub mod Syscall
pub mod Trap
pub mod Tests
pub mod Lock
pub mod Debug
pub mod Boot
