-- ===== src/Kern/Env/Lookup.antt =====
-- Who may name an environment: envid2env of lab/kern/env.c.
use adv_os_jos.Prelude.{
  ℕ, ◌≡◌, ◌≢◌, Bool, true, false, not, ◌&&◌, ◌||◌, ◌⊎◌, inl, inr, none, some, ◌==◌, pos, neg, arith,
  Bool-cases, ==_iff,
}
use adv_os_jos.Kern.Machine.{Kernel, Env, free, ok, e_bad_env}
use adv_os_jos.Kern.Env.{envid2env, envx, same_status, same_ptr, same_status-eq, same_status-ne}

-- The id names a live environment, which is the current one, or its child, where that is asked for.
pub record Granted (k : Kernel) (c envid : ℕ) (checkperm : Bool) : Type 0 where
  pub live : (k.envs (envx envid)).env_status ≢ free
  pub not_stale : (k.envs (envx envid)).env_id ≡ envid
  pub permitted :
      checkperm ≡ true
      → (c ≡ envx envid) ⊎ ((k.envs (envx envid)).env_parent_id ≡ (k.envs c).env_id)

-- envid2env found the current environment or a granted one, or refused the id.
abbrev pub Resolved : (k : Kernel) (c envid : ℕ) (checkperm : Bool) → Type 0
Resolved k c envid checkperm =
    ((envid ≡ 0) × (envid2env envid checkperm k ≡ ok (pos 0, some c) k))
    ⊎ ((envid ≢ 0)
        × Granted k c envid checkperm
        × (envid2env envid checkperm k ≡ ok (pos 0, some (envx envid)) k))
    ⊎ ((envid ≢ 0)
        × (¬ (Granted k c envid checkperm))
        × (envid2env envid checkperm k ≡ ok (neg e_bad_env, none) k))

-- With a current environment `c`: the id 0 names it; any other id names its slot if the id is
-- granted, and else the call returns -E_BAD_ENV with a NULL environment. Nothing changes.
pub envid2env_lem :
    (k : Kernel) (c envid : ℕ) (checkperm : Bool) → k.curenv ≡ some c → Resolved k c envid checkperm
unfolding envid2env
envid2env_lem k c envid checkperm cur = elim (Bool-cases (envid == 0)) [
  | inl self ↦ inl ((==_iff envid 0).0 self, rw (self, cur))
  | inr other ↦ elim (Bool-cases (same_status env.env_status free || not (env.env_id == envid))) [
    | inl stale ↦
        inr (inr (ground arith, (λ g. absurd_of g.live g.not_stale stale), rw (other, stale)))
    | inr live ↦ elim (Bool-cases (checkperm && not (same_ptr k.curenv (envx envid)))) [
      | inr open_to_all ↦ inr (
          inl (
            ground arith,
            record {
              live = live_of live;
              not_stale = id_of live;
              permitted = λ want. inl (ground (arith, cur));
            },
            rw (other, live, open_to_all),
          ))
      | inl asked ↦ elim (Bool-cases (env.env_parent_id == (k.envs c).env_id)) [
        | inl child ↦ inr (
            inl (
              ground arith,
              record {
                live = live_of live;
                not_stale = id_of live;
                permitted = λ want. inr ((==_iff _ _).0 child);
              },
              rw (other, live, asked, cur, child),
            ))
        | inr stranger ↦ inr (
            inr (
              ground arith,
              (λ g. ground (arith, cur, g.permitted)),
              rw (other, live, asked, cur, stranger),
            ))
      ]
    ]
  ]
]
  where
    env : Env
    env = k.envs (envx envid)

    live_of :
        same_status env.env_status free || not (env.env_id == envid) ≡ false → env.env_status ≢ free
    live_of h = same_status-ne env.env_status free (ground arith)

    id_of :
        same_status env.env_status free || not (env.env_id == envid) ≡ false → env.env_id ≡ envid
    id_of h = ground arith

    absurd_of :
        env.env_status ≢ free
        → env.env_id ≡ envid
        → same_status env.env_status free || not (env.env_id == envid) ≡ true
        → ⊥
    absurd_of l e h = l (same_status-eq env.env_status free (ground arith))
