-- ===== src/Kern/Tests.antt =====
-- A small machine, and the kernel's theorems at it.
use adv_os_jos.Prelude.{
  ◌≤◌, ◌<◌, ℕ, ◌+◌, ◌*◌, ◌≡◌, ◌≢◌, refl, true, false, ◌&&◌, none, some, [], ◌∷◌, ◌++◌, ◌==◌,
  if◌then◌else◌, arith, Bool-cases, ◌⊎◌, inl, inr, ==_iff, ◌∙◌, sym, ℤ, pos,
}
use adv_os_jos.Kern.Machine.{
  and_then, utop, Kernel, Env, Status, runnable, running, free, user, ok, Cmd, pure,
}
use adv_os_jos.Kern.Env.{envid2env, fresh_tf, same_status-ne}
use adv_os_jos.Kern.Page.FreeList.{IsFree, Allocated, page_alloc-cons}
use adv_os_jos.Kern.Page.Init.{page_init}
use adv_os_jos.Kern.Page.Init.Links.{usable, range}
use adv_os_jos.Kern.Page.Init.Usable.{Boots, page_init-IsFree}
use adv_os_jos.Kern.Pgdir.{page_lookup}
use adv_os_jos.Kern.Pgdir.Translate.{
  IsDir, present, table, page_lookup-translate, located, translate,
}
use adv_os_jos.Kern.Pgdir.Remove.{Unmapped, page_remove-unmaps}
use adv_os_jos.Kern.Pgdir.Maps.{InsertOutcome, page_insert-maps}
use adv_os_jos.Kern.Pgdir.Grow.{IsFresh}
use adv_os_jos.Kern.Env.Directory.{SetUp, env_setup_vm-IsDir}
use adv_os_jos.Kern.Env.Lookup.{Resolved, envid2env_lem}
use adv_os_jos.Kern.Sched.{sched_yield}
use adv_os_jos.Kern.Sched.Running.{IsScheduled, Yielded, sched_yield-Yielded}
use adv_os_jos.Kern.Syscall.Ipc.Send.{Sent, Delivers, sys_ipc_try_send_lem}
use adv_os_jos.Kern.Syscall.Memory.Grant.{MapOutcome, sys_page_map_lem}
use adv_os_jos.Kern.Syscall.Ipc.{sys_ipc_recv, sys_ipc_try_send}
use adv_os_jos.Kern.Syscall.Ipc.Rendezvous.{after_recv, later, recv-send}
use adv_os_jos.Kern.Sched.Choice.{Scheduled, sched_yield_lem}

-- a slot whose id is that of the slot in the first generation
abbrev pub slot : Status → ℕ → Env
slot status id = record {
  env_tf = fresh_tf;
  env_link = none;
  env_id = id;
  env_parent_id = 0x1000;
  env_type = user;
  env_status = status;
  env_runs = 0;
  env_pgdir = some 1;
  env_pgfault_upcall = 0;
  env_ipc_recving = false;
  env_ipc_dstva = 0;
  env_ipc_value = 0;
  env_ipc_from = 0;
  env_ipc_perm = 0;
}

-- The directory is page 1, which is its own table at UVPT; its other table, page 2, maps the page at 0x1000 to page 5. Pages 3 and 4
-- are free. Environment 0 runs, its child 2 can run.
abbrev pub machine : Kernel
machine = record {
  npages = 16;
  npages_basemem = 16;
  nextfree = 0;
  pages =
      λ i. record { pp_link = if i == 3 then some 4 else none; pp_ref = if i == 5 then 1 else 0 };
  page_free_list = some 3;
  kern_pgdir = 1;
  mmio_base = 0xef800000;
  user_mem_check_addr = 0;
  envs = λ i.
      if i == 0 then slot running 0x1000 else if i == 2 then slot runnable 0x1002 else slot free 0;
  env_free_list = some 1;
  curenv = some 0;
  memory = λ f i.
      if f == 1 && i == 0
      then 2 * 4096 + 7
      else if f == 1 && i == 957
      then 1 * 4096 + 5
      else if f == 2 && i == 1
      then 5 * 4096 + 7
      else 0;
  cr3 = 1;
  flushed = [];
}

-- the free list of the machine
machine-IsFree : IsFree machine (3 ∷ 4 ∷ [])
machine-IsFree = (refl, omega arith, refl, refl, (refl, omega arith, refl, refl, refl))

-- Only the first table is present, and at UVPT the directory.
pub tables_of :
    (d : ℕ)
    → present machine.memory 1 d ≡ true
    → ((d ≡ 0) × (table machine.memory 1 d ≡ 2)) ⊎ ((d ≡ 957) × (table machine.memory 1 d ≡ 1))
tables_of d h = elim (Bool-cases (d == 0)) [
  | inl first ↦ inl ((==_iff d 0).0 first, rw ((==_iff d 0).0 first) refl)
  | inr other ↦ elim (Bool-cases (d == 957)) [
    | inl own ↦ inr ((==_iff d 957).0 own, rw ((==_iff d 957).0 own) refl)
    | inr neither ↦ let bad : false ≡ true = rw (other, neither) at h in absurd (cc bad)
  ]
]

-- A directory with the page 2 as its table at `s` and itself at UVPT.
pub IsDir-two :
    (k : Kernel) (s : ℕ)
    → 2 < k.npages
    → ((d : ℕ)
        → present k.memory 1 d ≡ true
        → ((d ≡ s) × (table k.memory 1 d ≡ 2)) ⊎ ((d ≡ 957) × (table k.memory 1 d ≡ 1)))
    → IsDir k 1
IsDir-two k s room origin = record {
  table_in =
      λ d h. elim (origin d h) [ inl (_, t) ↦ omega (arith, t) | inr (_, t) ↦ omega (arith, t) ];
  table_apart = λ d out h. elim (origin d h) [
    | inl (_, t) ↦ λ e. omega (arith, t, e)
    | inr (own, _) ↦ absurd (out own)
  ];
  tables_differ = λ d e ne h h'. elim (origin d h) [
    | inl (a, t) ↦ elim (origin e h') [
      | inl (b, _) ↦ absurd (ne (a ∙ sym b))
      | inr (_, u) ↦ λ q. omega (arith, t, u, q)
    ]
    | inr (a, t) ↦ elim (origin e h') [
      | inl (_, u) ↦ λ q. omega (arith, t, u, q)
      | inr (b, _) ↦ absurd (ne (a ∙ sym b))
    ]
  ];
}

pub machine-IsDir : IsDir machine 1
machine-IsDir = IsDir-two machine 0 (omega arith) tables_of

-- Page 3 is not in use by the directory.
next_page-IsFresh : (p : ℕ) → machine.page_free_list ≡ some p → IsFresh machine 1 p
next_page-IsFresh p e =
    let three : 3 ≡ p = cc e in
    rw (← three) (record {
      in_range = omega arith;
      not_dir = λ h. omega (arith, h);
      not_table = λ d h. elim (tables_of d h) [
        | inl (_, t) ↦ λ q. omega (arith, t, q)
        | inr (_, t) ↦ λ q. omega (arith, t, q)
      ];
    })

page_alloc-cons_example : Allocated 1 machine 3 (4 ∷ [])
page_alloc-cons_example = page_alloc-cons 1 machine 3 (4 ∷ []) machine-IsFree (omega arith)

page_lookup-translate_example :
    page_lookup 1 0x1000 machine
    ≡ ok (located machine 1 0x1000 (translate machine.memory 1 0x1000)) machine
page_lookup-translate_example = page_lookup-translate machine 1 0x1000 machine-IsDir

pub mapped : translate machine.memory 1 0x1000 ≡ some 0x5007
unfolding translate
mapped = refl

page_remove-unmaps_example : Unmapped machine 1 0x1000 0x5007
page_remove-unmaps_example =
    page_remove-unmaps machine-IsDir 0x1000 (λ e. omega (arith, e)) 0x5007 mapped

-- An address of the second table, which is absent.
page_insert-maps_example : InsertOutcome machine 1 6 0x400000 7
page_insert-maps_example =
    page_insert-maps 6 0x400000 7 machine-IsDir (λ e. omega (arith, e)) (omega arith)
      next_page-IsFresh

env_setup_vm_example : SetUp machine 1
env_setup_vm_example = env_setup_vm-IsDir machine 1 machine-IsDir (omega arith) next_page-IsFresh

envid2env_example : Resolved machine 0 0x1002 true
envid2env_example = envid2env_lem machine 0 0x1002 true refl

sched_yield_example : Scheduled machine
sched_yield_example = sched_yield_lem machine

-- Every environment that the machine can run has the directory, and only environment 0 is running.
machine-IsScheduled : IsScheduled machine
machine-IsScheduled = record {
  only_current = λ i run. elim (Bool-cases (i == 0)) [
    | inl t ↦ rw ((==_iff i 0).0 t)
    | inr t ↦ absurd (others i t run)
  ];
  ready = λ i h. (1, one_dir i);
}
  where
    others : (i : ℕ) → (i == 0) ≡ false → (machine.envs i).env_status ≢ running
    others i t run = elim (Bool-cases (i == 2)) [
      | inl u ↦ same_status-ne runnable running refl (rw (t, u) at run)
      | inr u ↦ same_status-ne free running refl (rw (t, u) at run)
    ]

    one_dir : (i : ℕ) → (machine.envs i).env_pgdir ≡ some 1
    one_dir i = elim (Bool-cases (i == 0)) [
      | inl t ↦ rw t refl
      | inr t ↦ elim (Bool-cases (i == 2)) [ inl u ↦ rw (t, u) refl | inr u ↦ rw (t, u) refl ]
    ]

sched_yield-Yielded_example : Yielded machine
sched_yield-Yielded_example = sched_yield-Yielded machine machine-IsScheduled

sys_ipc_try_send_example : Sent machine 0 0x1002 42 0xeec00000 0
sys_ipc_try_send_example = sys_ipc_try_send_lem machine 0 0x1002 42 0xeec00000 0 refl (omega arith)

-- The console's calls, as a kernel with no console has them.
abbrev pub no_puts : (s len : ℕ) → Cmd (Unit {0})
no_puts s len = pure tt

abbrev pub no_getc : Cmd ℤ
no_getc = pure (pos 0)

caller_found : envid2env 0 true machine ≡ ok (pos 0, some 0) machine
unfolding envid2env
caller_found = refl

pub child_found : envid2env 0x1002 true machine ≡ ok (pos 0, some 2) machine
unfolding envid2env
child_found = refl

-- The caller maps its page at 0x1000 for its child, at 0x2000.
sys_page_map_example : MapOutcome machine 1 1 0 0x1000 0x1002 0x2000 7
sys_page_map_example =
    sys_page_map_lem machine 0 0x1002 0 2 1 1 caller_found child_found refl refl machine-IsDir
      0x1000 0x2000 7

-- The child 2 waits for a message, as the current environment.
abbrev child_runs : Kernel
child_runs = record machine { curenv = some 2 }

recv-send_example :
    (sys_ipc_recv 0x3000 child_runs
      ≡ and_then (sched_yield (after_recv child_runs 2 0x3000)) (λ _. pure (pos 0)))
    × ((value srcva perm s : ℕ)
        → utop ≤ srcva
        → Delivers
            (later child_runs 2 0x3000 s)
            2
            ((later child_runs 2 0x3000 s).envs s).env_id
            value
            (sys_ipc_try_send 0x1002 value srcva perm (later child_runs 2 0x3000 s)))
recv-send_example =
    recv-send child_runs 2 0x3000 refl 0x1002 (inr refl) (λ e. omega (arith, e)) refl refl

-- The machine before any environment is free.
abbrev booting : Kernel
booting = record machine { env_free_list = none }

-- Base memory of 16 pages, the kernel up to page 32, and 64 pages in all.
abbrev at_boot : Kernel
at_boot = record machine { npages = 64; npages_basemem = 16 }

at_boot-Boots : Boots 0xf001f123 32 at_boot
at_boot-Boots = record {
  base = omega arith;
  in_memory = omega arith;
  behind_base = omega arith;
  in_reach = omega arith;
  next_free = refl;
  word = omega arith;
}

page_init-IsFree_example :
    (k' : Kernel) × (page_init 0xf001f123 at_boot ≡ ok tt k')
    × IsFree k' (usable 15 1 ++ range 32 32)
page_init-IsFree_example = page_init-IsFree 0xf001f123 32 at_boot at_boot-Boots
