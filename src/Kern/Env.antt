-- ===== src/Kern/Env.antt =====
-- Environments of lab/kern/env.c: look-up by id, allocation, release, and the switch to one.
pub mod Alloc
pub mod Directory
pub mod Init
pub mod Load
pub mod Lookup
use adv_os_jos.Prelude.{
  ℕ, zero, suc, ◌+◌, ◌-◌, ◌*◌, ◌/◌, ◌%◌, ◌^◌, bit_and, bit_or, Bool, true, false, not, ◌&&◌, ◌||◌,
  Option, none, some, ◌≡◌, ◌≢◌, arith, ◌==◌, ==_refl, ltb, leb, update, if◌then◌else◌, ℤ, pos,
  negsuc, neg,
}
use adv_os_jos.Kern.Machine.{
  Kernel, Env, EnvType, user, Status, free, dying, runnable, running, not_runnable, Trapframe,
  PushRegs, Run, ok, user_mode, Cmd, pure, fail, gets, modify, deref, ◌>>=◌, ◌>>◌, set_env, page2pa,
  page2kva, pa2page, kaddr, pgsize, pdx, pte_addr, pte_p, pte_u, has_bits, npdentries, utop, uvpt,
  ustacktop, nenv, envgenshift, gd_ut, gd_ud, fl_if, e_bad_env, e_no_mem, e_no_free_env,
}
use adv_os_jos.Kern.Page.{page_alloc, page_decref, alloc_zero}
use adv_os_jos.Kern.Pgdir.{load, store, inc_ref, page_remove}

-- the values of env_status in inc/env.h
abbrev pub code : Status → ℕ
code free = 0
code dying = 1
code runnable = 2
code running = 3
code not_runnable = 4

abbrev pub same_status : Status → Status → Bool
same_status s t = code s == code t

pub same_status-eq : (s t : Status) → same_status s t ≡ true → s ≡ t
same_status-eq free t h = ground arith
same_status-eq dying t h = ground arith
same_status-eq runnable t h = ground arith
same_status-eq running t h = ground arith
same_status-eq not_runnable t h = ground arith

pub same_status-ne : (s t : Status) → same_status s t ≡ false → s ≢ t
same_status-ne s t h e =
    let loop : same_status t t ≡ false = rw e at h in cc (==_refl (code t), loop)

abbrev pub same_ptr : Option ℕ → ℕ → Bool
same_ptr none e = false
same_ptr (some c) e = c == e

-- ENVX
abbrev pub envx : ℕ → ℕ
envx envid = bit_and envid (nenv - 1)

-- The result and `*env_store`.
unfoldable pub envid2env : (envid : ℕ) (checkperm : Bool) → Cmd (ℤ × Option ℕ)
envid2env envid checkperm = do
  k ← gets (λ k. k)
  let e = envx envid
  let env = k.envs e
  if envid == 0
      then pure (pos 0, k.curenv)
      else if same_status env.env_status free || not (env.env_id == envid)
      then pure (neg e_bad_env, none)
      else if checkperm && not (same_ptr k.curenv e)
      then (do
        c ← deref k.curenv
        if not (env.env_parent_id == (k.envs c).env_id)
            then pure (neg e_bad_env, none)
            else pure (pos 0, some e))
      else pure (pos 0, some e)

abbrev pub zero_regs : PushRegs
zero_regs = record {
  reg_edi = 0;
  reg_esi = 0;
  reg_ebp = 0;
  reg_oesp = 0;
  reg_ebx = 0;
  reg_edx = 0;
  reg_ecx = 0;
  reg_eax = 0;
}

-- the trap frame that env_alloc writes
abbrev pub fresh_tf : Trapframe
fresh_tf = record {
  tf_regs = zero_regs;
  tf_es = bit_or gd_ud 3;
  tf_ds = bit_or gd_ud 3;
  tf_trapno = 0;
  tf_err = 0;
  tf_eip = 0;
  tf_cs = bit_or gd_ut 3;
  tf_eflags = bit_or 0 fl_if;
  tf_esp = ustacktop;
  tf_ss = bit_or gd_ud 3;
}

-- `generation | (e - envs)`: the generation after that of the id, in int32_t.
abbrev pub next_id : (id e : ℕ) → ℕ
next_id id e =
    let generation = bit_and ((id + 2 ^ envgenshift) % 2 ^ 32) (2 ^ 32 - nenv) in
    bit_or (if generation == 0 || leb (2 ^ 31) generation then 2 ^ envgenshift else generation) e

-- the environment that env_alloc leaves in the slot
abbrev pub fresh_env : Env → (e parent_id : ℕ) → Env
fresh_env env e parent_id = record env {
  env_id = next_id env.env_id e;
  env_parent_id = parent_id;
  env_type = user;
  env_status = runnable;
  env_runs = 0;
  env_tf = fresh_tf;
  env_pgfault_upcall = 0;
  env_ipc_recving = false;
}

-- The copy of the kernel's page directory and the entry for UVPT.
setup_dir : (e p : ℕ) → Cmd ℤ
setup_dir e p = do
  inc_ref p
  dir ← page2kva p
  modify (λ k. set_env e (record (k.envs e) { env_pgdir = some dir }) k)
  modify (λ k. record k {
    memory =
        update k.memory dir
          (λ i. if ltb i npdentries then k.memory k.kern_pgdir i else k.memory dir i);
  })
  store (dir, pdx uvpt) (bit_or (bit_or (page2pa dir) pte_p) pte_u)
  pure (pos 0)

unfoldable pub env_setup_vm : (e : ℕ) → Cmd ℤ
unfolding setup_dir
env_setup_vm e = do
  page ← page_alloc alloc_zero
  (λ k. elim page [ none ↦ ok (neg e_no_mem) k | some p ↦ setup_dir e p k ])

-- env_alloc once the free list is not empty
alloc_slot : (e parent_id : ℕ) → Cmd (ℤ × Option ℕ)
alloc_slot e parent_id = do
  r ← env_setup_vm e
  (λ k. elim r [
    | pos _ ↦
        (do
          modify (λ k'. set_env e (fresh_env (k'.envs e) e parent_id) k')
          modify (λ k'. record k' { env_free_list = (k'.envs e).env_link })
          pure (pos 0, some e))
          k
    | negsuc c ↦ ok (negsuc c, none) k
  ])

-- The result and `*newenv_store`, which an error leaves unset.
unfoldable pub env_alloc : (parent_id : ℕ) → Cmd (ℤ × Option ℕ)
unfolding alloc_slot
env_alloc parent_id = λ k. elim k.env_free_list [
  | none ↦ ok (neg e_no_free_env, none) k
  | some e ↦ alloc_slot e parent_id k
]
