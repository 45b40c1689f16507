-- ===== src/Kern/Lock.antt =====
-- The spin lock of lab/kern/spinlock.c with DEBUG_SPINLOCK, less the printing: each read, write and
-- xchg of the lock is a step of one CPU, and the steps of the CPUs interleave in one order.
pub mod Exclusion
pub mod Progress
mod Tests
use adv_os_jos.Prelude.{ℕ, ◌==◌, Bool, true, false, Option, none, some, update, if◌then◌else◌}

-- struct spinlock, less the name
pub record Spinlock : Type 0 where
  pub locked : ℕ
  pub cpu : Option ℕ
  pub pcs : ℕ → ℕ

-- __spin_initlock
unfoldable pub spin_initlock : Spinlock → Spinlock
spin_initlock lk = record lk { locked = 0; cpu = none }

-- How far a call of spin_lock is: the two reads of `holding`, the xchg, and the two records.
pub data LockPc : Type 0 where
  test_locked test_cpu exchange record_cpu record_pcs : LockPc

-- How far a call of spin_unlock is: the two reads of `holding`, the two resets, and the xchg.
pub data UnlockPc : Type 0 where
  check_locked check_cpu reset_pcs reset_cpu release : UnlockPc

-- A CPU is out of the critical section, in one of the two calls, in the section, or has panicked.
pub data Pc : Type 0 where
  outside inside panicked : Pc
  locking : LockPc → Pc
  unlocking : UnlockPc → Pc

-- `lock->cpu == thiscpu`
unfoldable pub is_cpu : (me : ℕ) → Option ℕ → Bool
is_cpu me none = false
is_cpu me (some c) = c == me

-- A step of spin_lock on the CPU `me`; `trace` is what get_caller_pcs finds.
abbrev pub spin_lock : (me : ℕ) (trace : ℕ → ℕ) → LockPc → Spinlock → Pc × Spinlock
spin_lock me trace test_locked lk =
    (if lk.locked == 0 then locking exchange else locking test_cpu, lk)
spin_lock me trace test_cpu lk = (if is_cpu me lk.cpu then panicked else locking exchange, lk)
spin_lock me trace exchange lk =
    (if lk.locked == 0 then locking record_cpu else locking exchange, record lk { locked = 1 })
spin_lock me trace record_cpu lk = (locking record_pcs, record lk { cpu = some me })
spin_lock me trace record_pcs lk = (inside, record lk { pcs = trace })

-- A step of spin_unlock.
abbrev pub spin_unlock : (me : ℕ) → UnlockPc → Spinlock → Pc × Spinlock
spin_unlock me check_locked lk = (if lk.locked == 0 then panicked else unlocking check_cpu, lk)
spin_unlock me check_cpu lk = (if is_cpu me lk.cpu then unlocking reset_pcs else panicked, lk)
spin_unlock me reset_pcs lk = (unlocking reset_cpu, record lk { pcs = update lk.pcs 0 0 })
spin_unlock me reset_cpu lk = (unlocking release, record lk { cpu = none })
spin_unlock me release lk = (outside, record lk { locked = 0 })

-- A CPU calls spin_lock outside the section and spin_unlock inside it.
abbrev pub cpu_step : (me : ℕ) (trace : ℕ → ℕ) → Pc → Spinlock → Pc × Spinlock
cpu_step me trace outside lk = (locking test_locked, lk)
cpu_step me trace inside lk = (unlocking check_locked, lk)
cpu_step me trace panicked lk = (panicked, lk)
cpu_step me trace (locking p) lk = spin_lock me trace p lk
cpu_step me trace (unlocking p) lk = spin_unlock me p lk

-- The CPUs and the lock that they share.
pub record System : Type 0 where
  pub pc : ℕ → Pc
  pub lock : Spinlock

abbrev pub step : (me : ℕ) (trace : ℕ → ℕ) → System → System
step me trace s = record {
  pc = update s.pc me (cpu_step me trace (s.pc me) s.lock).0;
  lock = (cpu_step me trace (s.pc me) s.lock).1;
}

abbrev pub start : Spinlock → System
start lk = record { pc = λ _. outside; lock = spin_initlock lk }

-- The states that the CPUs reach from `s`, in any order of their steps.
pub data Reach (s : System) : System → Type 0 where
  here : Reach s s
  next : {t : System} (me : ℕ) (trace : ℕ → ℕ) → Reach s t → Reach s (step me trace t)
