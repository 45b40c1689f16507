-- ===== src/Kern/Syscall/Ipc/Rendezvous.antt =====
-- A receiver that blocks in sys_ipc_recv of lab/kern/syscall.c, and a sender that comes later.
use adv_os_jos.Prelude.{
  ℕ, ◌≤◌, ◌%◌, ◌≡◌, ◌≢◌, refl, true, false, ◌⊎◌, inl, inr, some, ◌==◌, ==_ne, ==_refl, ltb, le→ltb,
  update_self, update-update, update, Bool-cases, arith, pos, if◌then◌else◌,
}
use adv_os_jos.Kern.Machine.{Kernel, Env, not_runnable, ok, pure, and_then, pgsize, utop}
use adv_os_jos.Kern.Env.{envid2env, envx}
use adv_os_jos.Kern.Sched.{sched_yield}
use adv_os_jos.Kern.Syscall.Ipc.Send.{Delivers, received}
use adv_os_jos.Kern.Syscall.Ipc.{sys_ipc_recv, sys_ipc_try_send, block}

-- the receiver as it blocks: waiting, not to be run, with the address that it gave if that is below UTOP
abbrev pub blocked : Env → (dstva : ℕ) → Env
blocked env dstva = record env {
  env_ipc_dstva = if ltb dstva utop then dstva else env.env_ipc_dstva;
  env_ipc_recving = true;
  env_status = not_runnable;
}

-- the state in which the receiver `c` enters the scheduler
abbrev pub after_recv : Kernel → (c dstva : ℕ) → Kernel
after_recv k c dstva = record k { envs = update k.envs c (blocked (k.envs c) dstva) }

-- the state in which the sender `s` finds the receiver
abbrev pub later : Kernel → (c dstva s : ℕ) → Kernel
later k c dstva s = record (after_recv k c dstva) { curenv = some s }

module _ (k : Kernel) (c dstva : ℕ) (cur : k.curenv ≡ some c) where
  recv_blocks :
      (utop ≤ dstva) ⊎ (dstva % pgsize ≡ 0)
      → sys_ipc_recv dstva k ≡ and_then (sched_yield (after_recv k c dstva)) (λ _. pure (pos 0))
  unfolding sys_ipc_recv block
  recv_blocks fine = elim (Bool-cases (ltb dstva utop)) [
    | inl t ↦
        let aligned : (dstva % pgsize == 0) ≡ true = ground arith in
        rw (sys_ipc_recv, t, aligned, cur, block) (rw (update_self, update-update) refl)
    | inr t ↦ rw (sys_ipc_recv, t, block, cur) refl
  ]

  send-Delivers :
      (envid value srcva perm s : ℕ)
      → envid ≢ 0
      → envx envid ≡ c
      → (k.envs c).env_id ≡ envid
      → utop ≤ srcva
      → Delivers
          (later k c dstva s)
          c
          ((later k c dstva s).envs s).env_id
          value
          (sys_ipc_try_send envid value srcva perm (later k c dstva s))
  unfolding envid2env
  send-Delivers envid value srcva perm s ne slot id high =
      received (later k c dstva s) s envid value srcva perm refl c found (rw update_self refl)
        (le→ltb srcva utop high)
    where
      found : envid2env envid false (later k c dstva s) ≡ ok (pos 0, some c) (later k c dstva s)
      found = rw (envid2env, ==_ne envid 0 ne, slot, update_self, id, ==_refl envid) refl

  -- The two halves of a message without a page, where the receiver `c`, with the id `envid`, gives an
  -- address that is page-aligned or not below UTOP: sys_ipc_recv goes to the scheduler with the
  -- receiver blocked; and a send of any `value` to the id by any environment `s` in that state, from
  -- an address at or above UTOP, returns 0 and leaves the receiver with the value and the id of `s`, no
  -- page, 0 in `eax`, no longer waiting and runnable, while nothing else changes.
  pub recv-send :
      (envid : ℕ)
      → (utop ≤ dstva) ⊎ (dstva % pgsize ≡ 0)
      → envid ≢ 0
      → envx envid ≡ c
      → (k.envs c).env_id ≡ envid
      → (sys_ipc_recv dstva k ≡ and_then (sched_yield (after_recv k c dstva)) (λ _. pure (pos 0)))
        × ((value srcva perm s : ℕ)
            → utop ≤ srcva
            → Delivers
                (later k c dstva s)
                c
                ((later k c dstva s).envs s).env_id
                value
                (sys_ipc_try_send envid value srcva perm (later k c dstva s)))
  recv-send envid fine ne slot id = (
    recv_blocks fine,
    λ value srcva perm s high. send-Delivers envid value srcva perm s ne slot id high,
  )
