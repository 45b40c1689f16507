-- ===== src/Kern/Sched/Running.antt =====
-- Who is running, before and after env_run and sched_yield of lab/kern.
use adv_os_jos.Prelude.{
  ℕ, ◌+◌, ◌%◌, ◌^◌, ◌≡◌, ◌≢◌, refl, sym, ◌∙◌, true, false, ◌⊎◌, inl, inr, Option, none, some, ◌==◌,
  update, update_self, update_ne, arith, Bool-cases, Option-cases, ==_iff,
}
use adv_os_jos.Kern.Machine.{
  Kernel, Env, runnable, running, Run, user_mode, halted, in_monitor, nenv,
}
use adv_os_jos.Kern.Env.{same_status, same_status-eq, same_status-ne}
use adv_os_jos.Kern.Sched.{alive_from, search_start, preempt, env_run, sched_halt, sched_yield}
use adv_os_jos.Kern.Sched.Choice.{sched_yield_lem}

-- On one CPU: an environment that is running is the current one; and one that can be run has a
-- page directory.
pub record IsScheduled (k : Kernel) : Type 0 where
  pub only_current : (i : ℕ) → (k.envs i).env_status ≡ running → k.curenv ≡ some i
  pub ready :
      (i : ℕ)
      → ((k.envs i).env_status ≡ runnable) ⊎ ((k.envs i).env_status ≡ running)
      → (d : ℕ) × ((k.envs i).env_pgdir ≡ some d)

-- What the preemption of the current environment leaves: none is running, and else all is as it was.
record Preempted (k p : Kernel) : Type 0 where
  pgdirs : (i : ℕ) → (p.envs i).env_pgdir ≡ (k.envs i).env_pgdir
  stopped : (i : ℕ) → (p.envs i).env_status ≢ running
  runnables :
      (i : ℕ)
      → (p.envs i).env_status ≡ runnable
      → ((k.envs i).env_status ≡ runnable) ⊎ ((k.envs i).env_status ≡ running)
  others : (i : ℕ) → (k.envs i).env_status ≢ running → p.envs i ≡ k.envs i

none_running : (k : Kernel) → ((i : ℕ) → (k.envs i).env_status ≢ running) → Preempted k k
none_running k h = record {
  pgdirs = λ i. refl;
  stopped = h;
  runnables = λ i e. inl e;
  others = λ i ne. refl;
}

-- the environment `c`, made runnable
abbrev resting : Kernel → ℕ → Env
resting k c = record (k.envs c) { env_status = runnable }

one_running :
    (k : Kernel) (c : ℕ)
    → IsScheduled k
    → k.curenv ≡ some c
    → (k.envs c).env_status ≡ running
    → Preempted k (record k { envs = update k.envs c (resting k c) })
one_running k c v cur run = record {
  pgdirs = λ i. elim (Bool-cases (c == i)) [
    | inl t ↦ rw (← (==_iff c i).0 t, update_self)
    | inr t ↦ rw (update_ne k.envs c (resting k c) i t)
  ];
  stopped = λ i e. elim (Bool-cases (c == i)) [
    | inl t ↦ same_status-ne runnable running refl (rw (← (==_iff c i).0 t, update_self) at e)
    | inr t ↦ other i t (rw (update_ne k.envs c (resting k c) i t) at e)
  ];
  runnables = λ i e. elim (Bool-cases (c == i)) [
    | inl t ↦ inr (rw (← (==_iff c i).0 t) run)
    | inr t ↦ inl (rw (update_ne k.envs c (resting k c) i t) at e)
  ];
  others = λ i ne. elim (Bool-cases (c == i)) [
    | inl t ↦ absurd (ne (rw (← (==_iff c i).0 t) run))
    | inr t ↦ update_ne k.envs c (resting k c) i t
  ];
}
  where
    other : (i : ℕ) → (c == i) ≡ false → (k.envs i).env_status ≢ running
    other i t e =
        let same : c ≡ i = cc (cur, v.only_current i e) in
        let yes : (c == i) ≡ true = (==_iff c i).1 same in cc (yes, t)

preempt-Preempted : (k : Kernel) → IsScheduled k → Preempted k (preempt k k.curenv)
preempt-Preempted k v = at_current k.curenv refl
  where
    at_current : (o : Option ℕ) → k.curenv ≡ o → Preempted k (preempt k o)
    at_current none e =
        none_running k (λ i run. let bad : none ≡ some i = sym e ∙ v.only_current i run in cc bad)
    at_current (some c) e = elim (Bool-cases (same_status (k.envs c).env_status running)) [
      | inl t ↦ rw t (one_running k c v e (same_status-eq (k.envs c).env_status running t))
      | inr t ↦ rw t (
          none_running k (λ i run.
            let same : c ≡ i = cc (e, v.only_current i run) in
            same_status-ne (k.envs c).env_status running t (rw same run)))
    ]

-- The kernel was left for the user mode of `e`.
abbrev pub Entered : (k : Kernel) (e : ℕ) → Run (Unit {0}) → Type 0
Entered k e r =
    (k' : Kernel) × (r ≡ user_mode k')
    × IsScheduled k'
    × (k'.curenv ≡ some e)
    × ((k'.envs e).env_status ≡ running)
    × ((k'.envs e).env_pgdir ≡ some k'.cr3)
    × ((i : ℕ) → i ≢ e → (k.envs i).env_status ≢ running → k'.envs i ≡ k.envs i)

module _ (k : Kernel) (e d : ℕ) (v : IsScheduled k) (dir : (k.envs e).env_pgdir ≡ some d) where
  -- the state before env_run changes `curenv`
  abbrev before : Kernel
  before = preempt k k.curenv

  p : Preempted k before
  p = preempt-Preempted k v

  -- the environment as env_run leaves it
  abbrev started : Env
  started = record (before.envs e) {
    env_status = running;
    env_runs = ((before.envs e).env_runs + 1) % 2 ^ 32;
  }

  abbrev after : Kernel
  after = record before { envs = update before.envs e started; curenv = some e; cr3 = d }

  dir_before : (before.envs e).env_pgdir ≡ some d
  dir_before = p.pgdirs e ∙ dir

  env_run-after : env_run e k ≡ user_mode after
  unfolding env_run
  env_run-after = rw (update_self, dir_before)

  after-IsScheduled : IsScheduled after
  after-IsScheduled = record {
    only_current = λ i run. elim (Bool-cases (e == i)) [
      | inl t ↦ rw ((==_iff e i).0 t)
      | inr t ↦ absurd (p.stopped i (rw (update_ne before.envs e started i t) at run))
    ];
    ready = λ i h. elim (Bool-cases (e == i)) [
      | inl t ↦ (d, rw (← (==_iff e i).0 t, update_self) dir_before)
      | inr t ↦ rw (update_ne before.envs e started i t, p.pgdirs i) (v.ready i (was i t h))
    ];
  }
    where
      was :
          (i : ℕ)
          → (e == i) ≡ false
          → ((after.envs i).env_status ≡ runnable) ⊎ ((after.envs i).env_status ≡ running)
          → ((k.envs i).env_status ≡ runnable) ⊎ ((k.envs i).env_status ≡ running)
      was i t (inl h) = p.runnables i (rw (update_ne before.envs e started i t) at h)
      was i t (inr h) = absurd (p.stopped i (rw (update_ne before.envs e started i t) at h))

  env_run-Entered : Entered k e (env_run e k)
  env_run-Entered = (
    after,
    env_run-after,
    after-IsScheduled,
    refl,
    rw update_self,
    rw update_self dir_before,
    λ i ne calm. update_ne before.envs e started i (ground arith) ∙ p.others i calm,
  )

-- Where only the current environment is running and every one that can be run has a page
-- directory, env_run of an environment that can be run goes to its user mode: it is then current, running, on
-- its own page directory, no other environment is running, and one that was not running before has
-- not changed.
pub env_run_lem :
    (k : Kernel) (e : ℕ)
    → IsScheduled k
    → ((k.envs e).env_status ≡ runnable) ⊎ ((k.envs e).env_status ≡ running)
    → Entered k e (env_run e k)
env_run_lem k e v h = let (d, dir) = v.ready e h in env_run-Entered k e d v dir

-- What sched_yield comes to on one CPU.
abbrev pub Yielded : Kernel → Type 0
Yielded k =
    ((e : ℕ) × Entered k e (sched_yield k))
    ⊎ (sched_yield k ≡ in_monitor k)
    ⊎ (sched_yield k ≡ halted (record k { curenv = none; cr3 = k.kern_pgdir }))

sched_halt_cases :
    (k : Kernel)
    → (sched_halt k ≡ in_monitor k)
      ⊎ (sched_halt k ≡ halted (record k { curenv = none; cr3 = k.kern_pgdir }))
unfolding sched_halt
sched_halt_cases k = elim (Bool-cases (alive_from nenv 0 k)) [
  | inl t ↦ rw t (inr refl)
  | inr t ↦ rw t (inl refl)
]

-- Where only the current environment is running and every one that can be run has a page
-- directory, sched_yield neither returns nor panics: it enters an environment, as env_run does, or stops in the
-- monitor, or halts the CPU on the kernel's page directory.
pub sched_yield-Yielded : (k : Kernel) → IsScheduled k → Yielded k
sched_yield-Yielded k v = elim (sched_yield_lem k) [
  | inl (d, lt, run, first, e) ↦
      let i = (search_start k.curenv + d) % nenv in
      inl (i, rw e (env_run_lem k i v (inl (same_status-eq (k.envs i).env_status runnable run))))
  | inr (idle, go_on, stop) ↦ elim (Option-cases k.curenv) [
    | inl e ↦ halting (stop (λ c cur. let bad : none ≡ some c = rw e at cur in absurd (cc bad)))
    | inr (c, e) ↦ elim (Bool-cases (same_status (k.envs c).env_status running)) [
      | inl t ↦
          let run = same_status-eq (k.envs c).env_status running t in
          inl (c, rw (go_on c e run) (env_run_lem k c v (inr run)))
      | inr t ↦ halting (
          stop (λ c' cur run.
            let same : c ≡ c' = cc (e, cur) in
            same_status-ne (k.envs c).env_status running t (rw same run)))
    ]
  ]
]
  where
    halting : sched_yield k ≡ sched_halt k → Yielded k
    halting e = rw e (elim (sched_halt_cases k) [ inl m ↦ inr (inl m) | inr h ↦ inr (inr h) ])
