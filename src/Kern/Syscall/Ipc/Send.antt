-- ===== src/Kern/Syscall/Ipc/Send.antt =====
-- What a message sent by sys_ipc_try_send of lab/kern/syscall.c does, where no page goes with it.
use adv_os_jos.Prelude.{
  ℕ, ◌≤◌, ◌≡◌, ◌≢◌, refl, true, false, ◌⊎◌, inl, inr, none, some, ltb, le→ltb, ℤ, pos, neg,
  Bool-cases,
}
use adv_os_jos.Kern.Machine.{
  Kernel, Env, Run, runnable, ok, set_env, utop, e_bad_env, e_ipc_not_recv,
}
use adv_os_jos.Kern.Env.{envid2env, envx}
use adv_os_jos.Kern.Env.Lookup.{Granted, envid2env_lem}
use adv_os_jos.Kern.Syscall.Ipc.{sys_ipc_try_send, delivered}

-- Any live environment may be sent to: the id names the slot `t`, 0 the sender `c` itself.
abbrev pub Names : (k : Kernel) (c envid t : ℕ) → Type 0
Names k c envid t =
    ((envid ≡ 0) × (t ≡ c)) ⊎ ((envid ≢ 0) × Granted k c envid false × (t ≡ envx envid))

-- The receiver `env'`, which was `env`, has the message: the value and the id of the sender, no page,
-- and 0 as the result of its sys_ipc_recv; it does not wait any longer and can run. The rest of it is
-- as it was.
pub record HasMessage (env env' : Env) (from value : ℕ) : Type 0 where
  pub value_is : env'.env_ipc_value ≡ value
  pub from_is : env'.env_ipc_from ≡ from
  pub no_page : env'.env_ipc_perm ≡ 0
  pub stopped_waiting : env'.env_ipc_recving ≡ false
  pub can_run : env'.env_status ≡ runnable
  pub result :
      env'.env_tf ≡ record env.env_tf { tf_regs = record env.env_tf.tf_regs { reg_eax = 0 } }
  pub same_slot : (env'.env_link ≡ env.env_link) × (env'.env_runs ≡ env.env_runs)
  pub same_names :
      (env'.env_id ≡ env.env_id)
      × (env'.env_parent_id ≡ env.env_parent_id)
      × (env'.env_type ≡ env.env_type)
  pub same_memory :
      (env'.env_pgdir ≡ env.env_pgdir)
      × (env'.env_pgfault_upcall ≡ env.env_pgfault_upcall)
      × (env'.env_ipc_dstva ≡ env.env_ipc_dstva)

-- The call returned 0 and changed the environment `t` alone, which has the message.
abbrev pub Delivers : (k : Kernel) (t from value : ℕ) → Run ℤ → Type 0
Delivers k t from value r =
    (env' : Env) × (r ≡ ok (pos 0) (set_env t env' k)) × HasMessage (k.envs t) env' from value

delivered-HasMessage :
    (env : Env) (from value : ℕ) → HasMessage env (delivered env from value 0) from value
delivered-HasMessage env from value = record {
  value_is = refl;
  from_is = refl;
  no_page = refl;
  stopped_waiting = refl;
  can_run = refl;
  result = refl;
  same_slot = (refl, refl);
  same_names = (refl, refl, refl);
  same_memory = (refl, refl, refl);
}

-- No environment has the id; or the one that has it is not receiving; or the message is delivered.
abbrev pub Sent : (k : Kernel) (c envid value srcva perm : ℕ) → Type 0
Sent k c envid value srcva perm =
    ((envid ≢ 0)
      × (¬ (Granted k c envid false))
      × (sys_ipc_try_send envid value srcva perm k ≡ ok (neg e_bad_env) k))
    ⊎ ((t : ℕ) × Names k c envid t
        × ((((k.envs t).env_ipc_recving ≡ false)
              × (sys_ipc_try_send envid value srcva perm k ≡ ok (neg e_ipc_not_recv) k))
            ⊎ (((k.envs t).env_ipc_recving ≡ true)
                × Delivers k t (k.envs c).env_id value
                    (sys_ipc_try_send envid value srcva perm k))))

module _ (k : Kernel) (c envid value srcva perm : ℕ) (cur : k.curenv ≡ some c) where
  refused :
      envid2env envid false k ≡ ok (neg e_bad_env, none) k
      → sys_ipc_try_send envid value srcva perm k ≡ ok (neg e_bad_env) k
  unfolding sys_ipc_try_send
  refused e = rw e

  not_waiting :
      (t : ℕ)
      → envid2env envid false k ≡ ok (pos 0, some t) k
      → (k.envs t).env_ipc_recving ≡ false
      → sys_ipc_try_send envid value srcva perm k ≡ ok (neg e_ipc_not_recv) k
  unfolding sys_ipc_try_send
  not_waiting t e r = rw (e, r)

  pub received :
      (t : ℕ)
      → envid2env envid false k ≡ ok (pos 0, some t) k
      → (k.envs t).env_ipc_recving ≡ true
      → ltb srcva utop ≡ false
      → Delivers k t (k.envs c).env_id value (sys_ipc_try_send envid value srcva perm k)
  unfolding sys_ipc_try_send
  received t e r above = (
    delivered (k.envs t) (k.envs c).env_id value 0,
    rw (e, r, above, cur),
    delivered-HasMessage (k.envs t) (k.envs c).env_id value,
  )

  by_receiver :
      (t : ℕ)
      → Names k c envid t
      → envid2env envid false k ≡ ok (pos 0, some t) k
      → ltb srcva utop ≡ false
      → Sent k c envid value srcva perm
  by_receiver t names e above = elim (Bool-cases (k.envs t).env_ipc_recving) [
    | inl r ↦ inr (t, names, inr (r, received t e r above))
    | inr r ↦ inr (t, names, inl (r, not_waiting t e r))
  ]

  -- A send of a value alone, from an address at or above UTOP, by the environment `c`: it returns
  -- -E_BAD_ENV for an id of no live environment, and -E_IPC_NOT_RECV for one that does not wait for
  -- a message, and changes nothing; else it returns 0, and the receiver has the value and the
  -- sender's id, no page, 0 in `eax`, no longer waits and is runnable, while nothing else changes.
  pub sys_ipc_try_send_lem : utop ≤ srcva → Sent k c envid value srcva perm
  sys_ipc_try_send_lem high = elim (envid2env_lem k c envid false cur) [
    | inl (self, e) ↦ by_receiver c (inl (self, refl)) e (le→ltb srcva utop high)
    | inr (inl (other, granted, e)) ↦
        by_receiver (envx envid) (inr (other, granted, refl)) e (le→ltb srcva utop high)
    | inr (inr (other, none_such, e)) ↦ inl (other, none_such, refused e)
  ]
