-- ===== src/Kern/Machine/Const.antt =====
-- The constants and address macros of lab/inc/mmu.h, memlayout.h, env.h, error.h and types.h.
use adv_os_jos.Prelude.{ℕ, ◌+◌, ◌-◌, ◌/◌, ◌%◌, ◌^◌, bit_and, Bool, not, ◌==◌}

abbrev pub pgsize : ℕ
pgsize = 4096

abbrev pub ptsize : ℕ
ptsize = 0x400000

abbrev pub npdentries : ℕ
npdentries = 1024

abbrev pub kernbase : ℕ
kernbase = 0xf0000000

abbrev pub mmiolim : ℕ
mmiolim = 0xefc00000

abbrev pub mmiobase : ℕ
mmiobase = 0xef800000

abbrev pub ulim : ℕ
ulim = mmiobase

abbrev pub uvpt : ℕ
uvpt = 0xef400000

abbrev pub utop : ℕ
utop = 0xeec00000

abbrev pub ustacktop : ℕ
ustacktop = 0xeebfe000

abbrev pub mpentry_paddr : ℕ
mpentry_paddr = 0x7000

abbrev pub pte_p : ℕ
pte_p = 1

abbrev pub pte_w : ℕ
pte_w = 2

abbrev pub pte_u : ℕ
pte_u = 4

abbrev pub pte_pwt : ℕ
pte_pwt = 8

abbrev pub pte_pcd : ℕ
pte_pcd = 16

-- PTE_AVAIL | PTE_P | PTE_W | PTE_U
abbrev pub pte_syscall : ℕ
pte_syscall = 0xe07

-- `w & mask` as a condition
abbrev pub has_bits : ℕ → ℕ → Bool
has_bits w mask = not (bit_and w mask == 0)

-- page number field of address
abbrev pub pgnum : ℕ → ℕ
pgnum la = la / 2 ^ 12

-- page directory index
abbrev pub pdx : ℕ → ℕ
pdx la = bit_and (la / 2 ^ 22) 0x3ff

-- page table index
abbrev pub ptx : ℕ → ℕ
ptx la = bit_and (la / 2 ^ 12) 0x3ff

-- address in page table or page directory entry
abbrev pub pte_addr : ℕ → ℕ
pte_addr pte = bit_and pte 0xfffff000

-- Round down to the nearest multiple of n
abbrev pub rounddown : ℕ → ℕ → ℕ
rounddown a n = a - a % n

-- Round up to the nearest multiple of n, in uint32_t
abbrev pub roundup : ℕ → ℕ → ℕ
roundup a n = rounddown ((a + n - 1) % 2 ^ 32) n

abbrev pub nenv : ℕ
nenv = 1024

abbrev pub envgenshift : ℕ
envgenshift = 12

abbrev pub gd_ut : ℕ
gd_ut = 0x18

abbrev pub gd_ud : ℕ
gd_ud = 0x20

abbrev pub fl_if : ℕ
fl_if = 0x200

abbrev pub e_bad_env : ℕ
e_bad_env = 2

abbrev pub e_inval : ℕ
e_inval = 3

abbrev pub e_no_mem : ℕ
e_no_mem = 4

abbrev pub e_no_free_env : ℕ
e_no_free_env = 5

abbrev pub e_fault : ℕ
e_fault = 6

abbrev pub e_ipc_not_recv : ℕ
e_ipc_not_recv = 7
