-- ===== src/Kern/Sched/Choice.antt =====
-- Whom sched_yield of lab/kern/sched.c runs.
use adv_os_jos.Prelude.{
  ℕ, zero, suc, ◌+◌, ◌%◌, ◌<◌, ◌≡◌, ◌≢◌, ◌∙◌, Bool, true, false, ◌⊎◌, inl, inr, Option, none, some,
  if◌then◌else◌, arith, Bool-cases, Option-cases, ◌-◌,
}
use adv_os_jos.Kern.Machine.{Kernel, runnable, running, nenv, deref, ◌>>=◌}
use adv_os_jos.Kern.Env.{same_status, same_status-eq}
use adv_os_jos.Kern.Sched.{search_from, search_start, sched_yield, env_run, sched_halt, cur_running}

abbrev pub is_runnable : Kernel → ℕ → Bool
is_runnable k i = same_status (k.envs i).env_status runnable

-- The loop stops at the first runnable environment in circular order from `i`, or has gone round.
search_from_lem :
    (n i : ℕ) (k : Kernel)
    → i < nenv
    → ((d : ℕ) × (d < n)
        × (search_from n i k ≡ (i + d) % nenv)
        × (is_runnable k ((i + d) % nenv) ≡ true)
        × ((c : ℕ) → c < d → is_runnable k ((i + c) % nenv) ≡ false))
      ⊎ ((search_from n i k ≡ (i + n) % nenv)
          × ((c : ℕ) → c < n → is_runnable k ((i + c) % nenv) ≡ false))
unfolding search_from
search_from_lem zero i k lt = inr (omega arith, λ c h. absurd (omega arith))
search_from_lem (suc n) i k lt = elim (Bool-cases (is_runnable k i)) [
  | inl found ↦
      rw found (inl (0, omega arith, omega arith, rw here found, λ c h. absurd (omega arith)))
  | inr busy ↦ rw busy (later (search_from_lem n ((i + 1) % nenv) k (omega arith)) busy)
]
  where
    here : (i + 0) % nenv ≡ i
    here = omega arith

    Outcome : ℕ → ℕ → ℕ → Type 0
    Outcome m j r =
        ((d : ℕ) × (d < m)
          × (r ≡ (j + d) % nenv)
          × (is_runnable k ((j + d) % nenv) ≡ true)
          × ((c : ℕ) → c < d → is_runnable k ((j + c) % nenv) ≡ false))
        ⊎ ((r ≡ (j + m) % nenv) × ((c : ℕ) → c < m → is_runnable k ((j + c) % nenv) ≡ false))

    shift : (d : ℕ) → ((i + 1) % nenv + d) % nenv ≡ (i + suc d) % nenv
    shift d = omega arith

    skipped :
        (m : ℕ)
        → is_runnable k i ≡ false
        → ((c : ℕ) → c < m → is_runnable k (((i + 1) % nenv + c) % nenv) ≡ false)
        → (c : ℕ) → c < suc m
        → is_runnable k ((i + c) % nenv) ≡ false
    skipped m busy before zero h = rw here busy
    skipped m busy before (suc c) h = rw (← shift c) (before c (omega arith))

    later : {r : ℕ} → Outcome n ((i + 1) % nenv) r → is_runnable k i ≡ false → Outcome (suc n) i r
    later (inl (d, lt', e, run, before)) busy =
        inl (suc d, omega arith, e ∙ shift d, rw (← shift d) run, skipped d busy before)
    later (inr (e, before)) busy = inr (e ∙ shift n, skipped n busy before)

search_start-lt : (o : Option ℕ) → search_start o < nenv
search_start-lt none = omega arith
search_start-lt (some c) = omega arith

-- What sched_yield does.
abbrev pub Scheduled : Kernel → Type 0
Scheduled k =
    let start = search_start k.curenv in
    ((d : ℕ) × (d < nenv)
      × (is_runnable k ((start + d) % nenv) ≡ true)
      × ((c : ℕ) → c < d → is_runnable k ((start + c) % nenv) ≡ false)
      × (sched_yield k ≡ env_run ((start + d) % nenv) k))
    ⊎ (((e : ℕ) → e < nenv → is_runnable k e ≡ false)
        × ((c : ℕ)
            → k.curenv ≡ some c
            → (k.envs c).env_status ≡ running
            → sched_yield k ≡ env_run c k)
        × (((c : ℕ) → k.curenv ≡ some c → (k.envs c).env_status ≢ running)
            → sched_yield k ≡ sched_halt k))

-- sched_yield runs the first runnable environment in circular order behind the current one (from
-- the first slot if there is none). If no environment is runnable, it goes on with the current one
-- where that is running, and else to sched_halt.
pub sched_yield_lem : (k : Kernel) → Scheduled k
unfolding sched_yield
sched_yield_lem k = elim (search_from_lem nenv start k (search_start-lt k.curenv)) [
  | inl (d, lt, e, run, before) ↦ inl (d, lt, run, before, rw (e, run))
  | inr (e, before) ↦
      let idle : is_runnable k ((start + nenv) % nenv) ≡ false =
        everywhere before ((start + nenv) % nenv) (omega arith) in
      inr (
        everywhere before,
        (λ c cur run. rw (e, idle) (go_on c cur run)),
        λ stopped. rw (e, idle) (rest (Option-cases k.curenv) stopped),
      )
]
  where
    start : ℕ
    start = search_start k.curenv

    everywhere :
        ((c : ℕ) → c < nenv → is_runnable k ((start + c) % nenv) ≡ false)
        → (e : ℕ) → e < nenv
        → is_runnable k e ≡ false
    everywhere before e lt =
        let back : (start + (e + nenv - start) % nenv) % nenv ≡ e =
          omega (arith, search_start-lt k.curenv) in
        rw back at (before ((e + nenv - start) % nenv) (omega arith))

    go_on :
        (c : ℕ)
        → k.curenv ≡ some c
        → (k.envs c).env_status ≡ running
        → (if cur_running k k.curenv then (do c ← deref k.curenv; env_run c) else sched_halt) k
          ≡ env_run c k
    go_on c cur run = rw (cur, run)

    rest :
        (k.curenv ≡ none) ⊎ ((c : ℕ) × (k.curenv ≡ some c))
        → ((c : ℕ) → k.curenv ≡ some c → (k.envs c).env_status ≢ running)
        → (if cur_running k k.curenv then (do c ← deref k.curenv; env_run c) else sched_halt) k
          ≡ sched_halt k
    rest (inl e) stopped = rw e
    rest (inr (c, e)) stopped = elim (Bool-cases (same_status (k.envs c).env_status running)) [
      | inl run ↦ absurd (stopped c e (same_status-eq (k.envs c).env_status running run))
      | inr stop ↦ rw (e, stop)
    ]
