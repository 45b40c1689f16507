-- ===== src/Kern/Lock/Tests.antt =====
-- The theorems on the spin lock at a run of two CPUs.
use adv_os_jos.Prelude.{ℕ, none, ◌≡◌, ◌≢◌, refl, update}
use adv_os_jos.Kern.Lock.{
  Spinlock, System, Reach, here, next, start, step, panicked, inside, locking, exchange,
  spin_initlock,
}
use adv_os_jos.Kern.Lock.Exclusion.{mutual_exclusion}
use adv_os_jos.Kern.Lock.Progress.{Enters, spin_lock-Enters}

abbrev new_lock : Spinlock
new_lock = record { locked = 7; cpu = none; pcs = λ _. 0 }

abbrev no_trace : ℕ → ℕ
no_trace _ = 0

-- CPU 0 takes the lock while CPU 1 begins, and spins.
abbrev contended : System
contended = step 1 no_trace (
    step 1 no_trace
      (step 0 no_trace (step 0 no_trace (step 1 no_trace (step 0 no_trace (start new_lock))))))

contended-Reach : Reach (start new_lock) contended
contended-Reach =
    next 1 no_trace
      (next 1 no_trace (next 0 no_trace (next 0 no_trace (next 1 no_trace (next 0 no_trace here)))))

mutual_exclusion_example :
    ((i : ℕ) → contended.pc i ≢ panicked)
    × ((i j : ℕ) → contended.pc i ≡ inside → contended.pc j ≡ inside → i ≡ j)
mutual_exclusion_example = mutual_exclusion new_lock contended-Reach

spin_lock-Enters_example : Enters 1 contended
unfolding spin_initlock update adv_os_jos.Kern.Lock.is_cpu
spin_lock-Enters_example = spin_lock-Enters no_trace new_lock 1 exchange contended-Reach refl
