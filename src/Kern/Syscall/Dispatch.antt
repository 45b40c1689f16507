-- ===== src/Kern/Syscall/Dispatch.antt =====
-- SYS_yield in the dispatcher of lab/kern/syscall.c.
use adv_os_jos.Prelude.{ℕ, ◌≡◌, refl, ◌⊎◌, inl, inr, ℤ}
use adv_os_jos.Kern.Machine.{Kernel, Run, user_mode, halted, in_monitor, Trapframe, Cmd}
use adv_os_jos.Kern.Sched.{sched_yield}
use adv_os_jos.Kern.Sched.Running.{IsScheduled, sched_yield-Yielded}
use adv_os_jos.Kern.Syscall.{syscall}
use adv_os_jos.Kern.Syscall.Process.{sys_yield}

-- The dispatcher ended where the scheduler left the kernel, or stopped.
abbrev pub Left : Kernel → Run ℤ → Type 0
Left k r =
    ((k' : Kernel) × (r ≡ user_mode k') × IsScheduled k' × (sched_yield k ≡ user_mode k'))
    ⊎ ((k' : Kernel) × (r ≡ halted k') × (sched_yield k ≡ halted k'))
    ⊎ ((r ≡ in_monitor k) × (sched_yield k ≡ in_monitor k))

-- The call SYS_yield, whose case has no `break`, does not run into SYS_exofork, where only the
-- current environment is running and every one that can be run has a page directory: it ends
-- where the scheduler does, in a program, in the monitor or in a halt.
pub syscall-yield :
    (sys_cputs : (s len : ℕ) → Cmd (Unit {0})) (sys_cgetc : Cmd ℤ) (frame_at : ℕ → Trapframe)
    (a1 a2 a3 a4 a5 : ℕ) (k : Kernel)
    → IsScheduled k
    → Left k (syscall sys_cputs sys_cgetc frame_at 11 a1 a2 a3 a4 a5 k)
unfolding syscall sys_yield
syscall-yield sys_cputs sys_cgetc frame_at a1 a2 a3 a4 a5 k v = elim (sched_yield-Yielded k v) [
  | inl (e, (k', r, v', cur, run, dir, others)) ↦ inl (k', rw r refl, v', r)
  | inr (inl r) ↦ inr (inr (rw r refl, r))
  | inr (inr r) ↦ inr (inl (_, rw r refl, r))
]
