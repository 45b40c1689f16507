-- ===== src/Kern/Trap/Tests.antt =====
-- The theorems on traps at one machine.
use adv_os_jos.Prelude.{◌+◌, ◌*◌, ◌≡◌, refl, ◌&&◌, ◌==◌, if◌then◌else◌, arith, inl, pos}
use adv_os_jos.Kern.Machine.{Kernel, Trapframe, running, ok}
use adv_os_jos.Kern.Env.{fresh_tf}
use adv_os_jos.Kern.UserMem.{user_mem_check}
use adv_os_jos.Kern.Tests.{machine, slot}
use adv_os_jos.Kern.Trap.{frame_place, utf_size}
use adv_os_jos.Kern.Trap.Fault.{Writable}
use adv_os_jos.Kern.Trap.Upcall.{Upcalled, page_fault_handler_lem}

-- The exception stack is page 6; the page tables are those of the machine.
abbrev faulting : Kernel
faulting = record machine {
  envs = λ i. record (slot running 0x1000) { env_pgfault_upcall = 0x800100 };
  memory = λ f i.
      if f == 1 && i == 954 then 2 * 4096 + 7 else if f == 2 && i == 1023 then 6 * 4096 + 7 else 0;
}

abbrev user_tf : Trapframe
user_tf = record fresh_tf { tf_esp = 0xeebfd000; tf_eip = 0x800020; tf_trapno = 14 }

stack_Writable : Writable faulting (frame_place 0xeebfd000) 6
stack_Writable = record {
  pde_set = refl;
  pde_writable = refl;
  pte_set = refl;
  pte_writable = refl;
  leads = refl;
  not_dir = λ e. omega (arith, e);
  not_table = λ e. omega (arith, e);
}

stack_granted :
    user_mem_check (faulting.envs 0) (frame_place 0xeebfd000) utf_size 7 faulting
    ≡ ok (pos 0) faulting
unfolding user_mem_check
stack_granted = refl

page_fault_handler_example : Upcalled faulting 0 0x1234 user_tf 6
page_fault_handler_example =
    page_fault_handler_lem faulting 0 0x1234 user_tf 6 refl refl (λ e. omega (arith, e)) refl
      (inl (omega arith)) stack_granted stack_Writable
