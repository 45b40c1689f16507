-- ===== src/Fs/Cache/Tests.antt =====
-- The theorems on the block cache at one machine.
use adv_os_jos.Prelude.{
  ℕ, ◌+◌, ◌*◌, ◌<◌, ◌≡◌, refl, true, false, Bool, ◌&&◌, ◌==◌, ==_iff, Bool-cases, ◌⊎◌, inl, inr,
  none, some, arith, is_neg, if◌then◌else◌,
}
use adv_os_jos.Kern.Pgdir.Maps.{Mapped}
use adv_os_jos.Kern.Pgdir.Entry.{entry}
use adv_os_jos.Kern.Machine.{ok, has_bits, Kernel, pte_syscall, rounddown, pgsize}
use adv_os_jos.Kern.Pgdir.{page_insert}
use adv_os_jos.Kern.Pgdir.Translate.{IsDir, present, table, translate}
use adv_os_jos.Kern.Pgdir.Remove.{page_of}
use adv_os_jos.Kern.Tests.{machine, IsDir-two}
use adv_os_jos.Fs.Cache.{Disk, bc_pgfault, flush_block, pte_d}
use adv_os_jos.Fs.Cache.Fault.{returned, bc_pgfault_unaligned}
use adv_os_jos.Fs.Cache.Flush.{Cached, Holds, flush_block_lem}

-- Block 1 is in page 5, dirty.
abbrev server : Kernel
server = record machine {
  memory = λ f i.
      if f == 1 && i == 64
      then 2 * 4096 + 7
      else if f == 1 && i == 957
      then 1 * 4096 + 5
      else if f == 2 && i == 1
      then 0x5047
      else if f == 5
      then i
      else 0;
}

abbrev all_ready : ℕ → Bool
all_ready s = true

abbrev blank : Disk
blank s j = 0

server_tables :
    (d : ℕ)
    → present server.memory 1 d ≡ true
    → ((d ≡ 64) × (table server.memory 1 d ≡ 2)) ⊎ ((d ≡ 957) × (table server.memory 1 d ≡ 1))
server_tables d h = elim (Bool-cases (d == 64)) [
  | inl here ↦ inl ((==_iff d 64).0 here, rw ((==_iff d 64).0 here) refl)
  | inr other ↦ elim (Bool-cases (d == 957)) [
    | inl own ↦ inr ((==_iff d 957).0 own, rw ((==_iff d 957).0 own) refl)
    | inr neither ↦ let bad : false ≡ true = rw (other, neither) at h in absurd (cc bad)
  ]
]

server-IsDir : IsDir server 1
server-IsDir = IsDir-two server 64 (omega arith) server_tables

block_mapped : translate server.memory 1 0x10001000 ≡ some 0x5047
unfolding translate
block_mapped = refl

block_1-Cached : Cached server 0 1 0x10001234 0x5047
block_1-Cached = record {
  current = refl;
  own = refl;
  tables = server-IsDir;
  inside = (omega arith, omega arith);
  maps = block_mapped;
  writable = refl;
}

flush_block_example :
    (disk' : Disk) × (k' : Kernel) × (flush_block all_ready 0x10001234 blank server
      ≡ ok (some disk') k')
    × Holds (server.memory (page_of 0x5047)) 0 8 8 blank disk'
    × Mapped server k' 1 (page_of 0x5047) (rounddown 0x10001234 pgsize) pte_syscall
    × (has_bits (entry (page_of 0x5047) pte_syscall) pte_d ≡ false)
flush_block_example =
    flush_block_lem server 0 1 0x10001234 0x5047 block_1-Cached all_ready blank (λ m less. refl)

bc_pgfault_unaligned_example :
    returned (bc_pgfault (some 1024) (λ b. false) all_ready blank 0x10002004 server) ≡ false
bc_pgfault_unaligned_example =
    bc_pgfault_unaligned (some 1024) (λ b. false) all_ready blank 0x10002004 (λ e. omega (arith, e))
      server

-- At the first address of the page the same fault is resolved.
aligned_fault :
    returned (bc_pgfault (some 1024) (λ b. false) all_ready blank 0x10002000 server) ≡ true
unfolding bc_pgfault adv_os_jos.Kern.Syscall.Memory.sys_page_alloc adv_os_jos.Kern.Page.page_alloc
    adv_os_jos.Kern.Env.envid2env page_insert adv_os_jos.Kern.Pgdir.pgdir_walk
    adv_os_jos.Prelude.update adv_os_jos.Fs.Cache.ide_read
    adv_os_jos.Kern.Syscall.Memory.sys_page_map adv_os_jos.Kern.Pgdir.page_lookup
aligned_fault = refl
