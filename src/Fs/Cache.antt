-- ===== src/Fs/Cache.antt =====
-- The block cache of lab/fs/bc.c on the kernel's system calls, and the transfers of lab/fs/ide.c. The
-- disk is the words of its sectors; `ready` says for which sectors the drive reports no error, and the
-- server's own page tables say which blocks are in memory.
pub mod Flush
pub mod Fault
mod Tests
use adv_os_jos.Prelude.{
  ℕ, zero, suc, ◌+◌, ◌-◌, ◌*◌, ◌/◌, ◌%◌, ◌^◌, bit_and, bit_or, Bool, true, false, not, ◌&&◌, ◌||◌,
  Option, none, some, ◌==◌, ltb, leb, update, if◌then◌else◌, ℤ, pos, negsuc, is_neg,
}
use adv_os_jos.Kern.Machine.{
  ok, has_bits, pgsize, pdx, pte_addr, pte_p, pte_w, pte_syscall, rounddown,
}
use adv_os_jos.Kern.Syscall.Memory.{sys_page_alloc, sys_page_map}
use adv_os_jos.Fs.{blksize}
use adv_os_jos.User.Fork.{User, returns, panics, ◌>>=◌, ◌>>◌, checked, uvpd_at, uvpt_at}

abbrev pub diskmap : ℕ
diskmap = 0x10000000

abbrev pub disksize : ℕ
disksize = 0xc0000000

abbrev pub sectsize : ℕ
sectsize = 512

abbrev pub blksects : ℕ
blksects = blksize / sectsize

abbrev pub pte_a : ℕ
pte_a = 0x20

abbrev pub pte_d : ℕ
pte_d = 0x40

-- `super && blockno >= super->s_nblocks`: `none` where the super-block is not read yet.
abbrev pub past_end : (s_nblocks : Option ℕ) → (blockno : ℕ) → Bool
past_end none blockno = false
past_end (some n) blockno = leb n blockno

unfoldable pub va_is_mapped : (va : ℕ) → User Bool
va_is_mapped va = uvpd_at (pdx va) >>= λ pde.
    if not (has_bits pde pte_p)
    then returns false
    else (uvpt_at (va / 2 ^ 12) >>= λ pte. returns (has_bits pte pte_p))

unfoldable pub va_is_dirty : (va : ℕ) → User Bool
va_is_dirty va = uvpt_at (va / 2 ^ 12) >>= λ pte. returns (has_bits pte pte_d)

abbrev pub Disk : Type 0
Disk = ℕ → ℕ → ℕ

-- the words of a page, with one sector's behind the index `at`
abbrev pub with_sector : (at : ℕ) (sector page : ℕ → ℕ) → ℕ → ℕ
with_sector at sector page i = if leb at i && ltb i (at + 128) then sector (i - at) else page i

-- insl of a sector to the address `va`; the MMU marks the page as accessed and dirty.
abbrev pub insl : (sector : ℕ → ℕ) (va : ℕ) → User (Unit {0})
insl sector va = uvpd_at (pdx va) >>= λ pde. uvpt_at (va / 2 ^ 12) >>= λ pte.
    if not (has_bits pte pte_p && has_bits pte pte_w) then panics else (λ k.
      let frame = pte_addr pte / 2 ^ 12 in
      let table = pte_addr pde / 2 ^ 12 in
      let m = update k.memory frame (with_sector (va % pgsize / 4) sector (k.memory frame)) in
      ok (some tt) (record k {
        memory =
            update m table (update (m table) (va / 2 ^ 12 % 1024) (bit_or pte (pte_a + pte_d)));
      }))

-- ide_read of `n` sectors.
unfoldable pub ide_read : (ready : ℕ → Bool) (disk : Disk) (n secno dst : ℕ) → User ℤ
ide_read ready disk zero secno dst = returns (pos 0)
ide_read ready disk (suc n) secno dst =
    let rest = ide_read ready disk n (secno + 1) (dst + sectsize) in
    if not (ready secno) then returns (negsuc 0) else (insl (disk secno) dst >> rest)

-- outsl of a sector at the address `va`
abbrev pub outsl : (va : ℕ) → User (ℕ → ℕ)
outsl va = uvpt_at (va / 2 ^ 12) >>= λ pte.
    if not (has_bits pte pte_p)
    then panics
    else (λ k. ok (some (λ j. k.memory (pte_addr pte / 2 ^ 12) (va % pgsize / 4 + j))) k)

-- ide_write of `n` sectors: its result, and the disk.
unfoldable pub ide_write : (ready : ℕ → Bool) (n secno src : ℕ) → Disk → User (ℤ × Disk)
ide_write ready zero secno src disk = returns (pos 0, disk)
ide_write ready (suc n) secno src disk =
    let rest = ide_write ready n (secno + 1) (src + sectsize) in
    if not (ready secno)
    then returns (negsuc 0, disk)
    else (outsl src >>= λ words. rest (update disk secno words))

-- `addr < (void*)DISKMAP || addr >= (void*)(DISKMAP + DISKSIZE)`
abbrev pub off_disk : (addr : ℕ) → Bool
off_disk addr = ltb addr diskmap || leb (diskmap + disksize) addr

abbrev pub block_at : (addr : ℕ) → ℕ
block_at addr = (addr - diskmap) / blksize

-- `if ((err = ...) < 0) panic(...)`
abbrev pub no_error : ℤ → User ℤ
no_error r = if is_neg r then panics else returns r

-- The read of the block at `page` by bc_pgfault.
abbrev pub load_page : (ready : ℕ → Bool) (disk : Disk) (page : ℕ) → User ℤ
load_page ready disk page =
    ide_read ready disk blksects ((page - diskmap) / sectsize) page >>= no_error

-- `sys_page_map(0, addr, 0, addr, uvpt[PGNUM(addr)] & PTE_SYSCALL)`, or a panic.
abbrev pub clear_dirty : (addr : ℕ) → User ℤ
clear_dirty addr = uvpt_at (addr / 2 ^ 12) >>= λ pte.
    checked (sys_page_map 0 addr 0 addr (bit_and pte pte_syscall))

-- bc_pgfault; `is_free` is `bitmap && block_is_free(blockno)`.
unfoldable pub bc_pgfault :
    (s_nblocks : Option ℕ) (is_free : ℕ → Bool) (ready : ℕ → Bool) (disk : Disk) (addr : ℕ)
    → User (Unit {0})
bc_pgfault s_nblocks is_free ready disk addr =
    let page = rounddown addr pgsize in
    if off_disk addr || past_end s_nblocks (block_at addr)
    then panics
    else (checked (sys_page_alloc 0 page 7)
        >> load_page ready disk page
        >> clear_dirty addr
        >> (if is_free (block_at addr) then panics else returns tt))

-- `va_is_mapped(addr) || va_is_dirty(addr)`
unfoldable pub must_write : (addr : ℕ) → User Bool
unfolding va_is_mapped va_is_dirty
must_write addr = va_is_mapped addr >>= λ mapped. if mapped then returns true else va_is_dirty addr

-- The disk behind the branch of flush_block that writes.
unfoldable pub write_back : (ready : ℕ → Bool) (addr : ℕ) → Disk → User Disk
unfolding ide_write
write_back ready addr disk =
    let page = rounddown addr pgsize in
    ide_write ready blksects (block_at addr * blksize % 2 ^ 32 / sectsize) page disk >>= λ written.
    no_error written.0 >> (checked (sys_page_map 0 page 0 page pte_syscall) >> returns written.1)

-- flush_block: the disk behind it.
unfoldable pub flush_block : (ready : ℕ → Bool) (addr : ℕ) → Disk → User Disk
unfolding must_write write_back
flush_block ready addr disk =
    if off_disk addr
    then panics
    else (must_write addr >>= λ must. if not must then returns disk else write_back ready addr disk)
