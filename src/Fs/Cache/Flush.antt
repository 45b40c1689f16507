-- ===== src/Fs/Cache/Flush.antt =====
-- flush_block of lab/fs/bc.c: what it writes to the disk.
use adv_os_jos.Prelude.{
  bit_or, ℤ, ℕ, zero, suc, ◌+◌, ◌*◌, ◌/◌, ◌%◌, ◌^◌, ◌≤◌, ◌<◌, Bool, true, false, Option, some, ◌≡◌,
  ◌≢◌, refl, ap, ◌∙◌, ==_ne, update, update_self, update_ne, arith, if◌then◌else◌, pos, is_neg,
}
use adv_os_jos.Kern.Machine
use adv_os_jos.Kern.Machine.{
  Kernel, Run, ok, pgsize, utop, rounddown, has_bits, pte_addr, pte_p, pte_w, pdx, pte_syscall,
  page2pa,
}
use adv_os_jos.Kern.Pgdir.{page_insert}
use adv_os_jos.Kern.Pgdir.Translate.{IsDir, translate, translate-some}
use adv_os_jos.Prelude.Words.{bit_of_or, bit_and_bit}
use adv_os_jos.Kern.Pgdir.Maps.{Mapped, Mapped-present}
use adv_os_jos.Kern.Pgdir.Entry.{entry, pdx_lem}
use adv_os_jos.Kern.Pgdir.Remove.{page_of}
use adv_os_jos.User.Fork.{returns, panics, uvpt_at}
use adv_os_jos.User.Fork.Dup.{Forks, uvpt_at-entry, uvpd_at-entry, checked-granted}
use adv_os_jos.Kern.Env.{envid2env}
use adv_os_jos.Fs.{blksize}
use adv_os_jos.Fs.Cache.{
  Disk, diskmap, sectsize, outsl, ide_write, va_is_mapped, off_disk, block_at, pte_d, must_write,
  write_back, flush_block,
}

-- The words of the page in the sectors from `secno` on, `n` of them, and the others as they were.
pub record Holds (page : ℕ → ℕ) (i n secno : ℕ) (before after : Disk) : Type 0 where
  pub these : (m j : ℕ) → m < n → after (secno + m) j ≡ page ((i + m) * 128 + j)
  pub others : (s : ℕ) → ((m : ℕ) → m < n → s ≢ secno + m) → after s ≡ before s

module _ (k : Kernel) (pn w : ℕ) (entry : uvpt_at pn k ≡ ok (some w) k)
    (set : has_bits w pte_p ≡ true) (ready : ℕ → Bool) where
  -- the words of the page
  abbrev page : ℕ → ℕ
  page = k.memory (page_of w)

  outsl-page :
      (i : ℕ) → i < 8 → outsl (pn * pgsize + 512 * i) k ≡ ok (some (λ j. page (i * 128 + j))) k
  outsl-page i less =
      let e : (pn * pgsize + 512 * i) / 2 ^ 12 ≡ pn = omega arith in
      let o : (pn * pgsize + 512 * i) % pgsize / 4 ≡ i * 128 = omega arith in
      rw (e, entry) (rw set (rw o refl))

  ide_write-Holds :
      (n i secno : ℕ) (disk : Disk)
      → i + n ≤ 8
      → ((m : ℕ) → m < n → ready (secno + m) ≡ true)
      → (disk' : Disk) × (ide_write ready n secno (pn * pgsize + 512 * i) disk k
          ≡ ok (some (pos 0, disk')) k)
        × Holds page i n secno disk disk'
  unfolding ide_write
  ide_write-Holds zero i secno disk fits r =
      (disk, refl, record { these = λ m j less. absurd (omega arith); others = λ s n. refl })
  ide_write-Holds (suc n) i secno disk fits r =
      let first = update disk secno (λ j. page (i * 128 + j)) in
      let (disk', runs, h) =
        ide_write-Holds n (i + 1) (secno + 1) first (omega arith) (λ m less. ready_next m less) in
      (disk', rw (ready_first, outsl-page i (omega arith)) (rw (next_src) runs), holds disk' h)
    where
      ready_next : (m : ℕ) → m < n → ready (secno + 1 + m) ≡ true
      ready_next m less =
          let e : secno + 1 + m ≡ secno + suc m = omega arith in rw e (r (suc m) (omega arith))

      ready_first : ready secno ≡ true
      ready_first = let e : secno + 0 ≡ secno = omega arith in rw⁻¹ e (r 0 (omega arith))

      next_src : pn * pgsize + 512 * i + sectsize ≡ pn * pgsize + 512 * (i + 1)
      next_src = omega arith

      holds :
          (disk' : Disk)
          → Holds page (i + 1) n (secno + 1) (update disk secno (λ j. page (i * 128 + j))) disk'
          → Holds page i (suc n) secno disk disk'
      holds disk' h = record {
        these = λ m j less. at m j less;
        others = λ s away.
            h.others s (λ m less e. away (suc m) (omega arith) (omega arith))
            ∙ update_ne disk secno _ s (==_ne secno s (λ e. away 0 (omega arith) (omega arith)));
      }
        where
          at : (m j : ℕ) → m < suc n → disk' (secno + m) j ≡ page ((i + m) * 128 + j)
          at zero j less =
              let e : secno + 0 ≡ secno = omega arith in
              rw e (
                ap (λ (f : ℕ → ℕ). f j)
                  (h.others secno (λ m l q. omega (arith, q)) ∙ update_self disk secno _)
                ∙ ap page (omega arith))
          at (suc m) j less =
              let e : secno + suc m ≡ secno + 1 + m = omega arith in
              rw e (h.these m j (omega arith) ∙ ap page (omega arith))

-- A page that is mapped with the permissions of PTE_SYSCALL is not marked as dirty.
entry-clean : (pp : ℕ) → has_bits (entry pp pte_syscall) pte_d ≡ false
entry-clean pp = rw (bit_and_bit 6 (entry pp pte_syscall)) (
    ground
      (arith, bit_of_or 6 (bit_or (page2pa pp) pte_p) pte_syscall, bit_of_or 6 (page2pa pp) pte_p))

-- The environment `c` of the server runs, with the directory `d`, which maps the block at `addr` by the
-- entry `w`, for writing.
pub record Cached (k : Kernel) (c d addr w : ℕ) : Type 0 where
  pub current : k.curenv ≡ some c
  pub own : (k.envs c).env_pgdir ≡ some d
  pub tables : IsDir k d
  pub inside : (diskmap ≤ addr) × (addr < 0xd0000000)
  pub maps : translate k.memory d (rounddown addr pgsize) ≡ some w
  pub writable : has_bits w pte_w ≡ true

module _ (k : Kernel) (c d addr w : ℕ) (h : Cached k c d addr w) where
  pn : ℕ
  pn = addr / 4096

  page_start : rounddown addr pgsize ≡ pn * pgsize
  unfolding pn
  page_start = omega arith

  forks : Forks k c d 0 c d pn w
  unfolding envid2env pn
  forks = record {
    current = h.current;
    own = h.own;
    child = ap (λ (o : Option ℕ). ok (pos 0, o) k) h.current;
    child_dir = h.own;
    tables = h.tables;
    below = omega (arith, h.inside);
    maps = rw⁻¹ page_start h.maps;
  }

  entry_at : uvpt_at pn k ≡ ok (some w) k
  entry_at = uvpt_at-entry k c d 0 c d pn w forks

  is_present : (has_bits (k.memory d (pdx addr)) pte_p ≡ true) × (has_bits w pte_p ≡ true)
  is_present =
      let (here, at, set) = translate-some k.memory d (rounddown addr pgsize) w h.maps in
      let e : pdx (rounddown addr pgsize) ≡ pdx addr =
        omega (arith, pdx_lem addr, pdx_lem (rounddown addr pgsize)) in
      (rw e at here, set)

  must_write-cached : must_write addr k ≡ ok (some true) k
  unfolding must_write va_is_mapped pn
  must_write-cached =
      rw (uvpd_at-entry k c d 0 c d pn w forks (pdx addr), is_present.0)
        (rw (entry_at, is_present.1) refl)

  -- The sectors are written, and the page is then mapped again, with a panic if that fails.
  flush_block-Holds :
      (ready : ℕ → Bool) (disk : Disk)
      → ((m : ℕ) → m < 8 → ready (block_at addr * 8 + m) ≡ true)
      → (disk' : Disk) × (flush_block ready addr disk k
          ≡ Machine.and_then
              (page_insert d (page_of w) (rounddown addr pgsize) pte_syscall k)
              (λ code. if is_neg code then panics else returns disk'))
        × Holds (k.memory (page_of w)) 0 8 (block_at addr * 8) disk disk'
  unfolding flush_block write_back
  flush_block-Holds ready disk r =
      let first : block_at addr * blksize % 2 ^ 32 / sectsize ≡ block_at addr * 8 =
        omega (arith, h.inside) in
      let src : pn * pgsize + 512 * 0 ≡ pn * pgsize = omega arith in
      let (disk', runs, holds) =
        ide_write-Holds k pn w entry_at is_present.1 ready 8 0 (block_at addr * 8) disk
          (omega arith) r in
      let on : off_disk addr ≡ false = ground (arith, h.inside) in
      (
        disk',
        rw (on, must_write-cached)
            (rw (first, page_start)
              (rw (rw src at runs) (
                checked-granted k c d 0 c d pn w forks pte_syscall (returns disk') refl
                  (λ _. h.writable)))),
        holds,
      )

  -- flush_block of a block in memory, where the drive reports no error: it returns; the eight sectors of
  -- the block have then the words of the page, and the others are as they were; and the page is mapped
  -- where it was, not dirty, and the other pages outside the window at UVPT as before.
  pub flush_block_lem :
      (ready : ℕ → Bool) (disk : Disk)
      → ((m : ℕ) → m < 8 → ready (block_at addr * 8 + m) ≡ true)
      → (disk' : Disk) × (k' : Kernel) × (flush_block ready addr disk k ≡ ok (some disk') k')
        × Holds (k.memory (page_of w)) 0 8 (block_at addr * 8) disk disk'
        × Mapped k k' d (page_of w) (rounddown addr pgsize) pte_syscall
        × (has_bits (entry (page_of w) pte_syscall) pte_d ≡ false)
  flush_block_lem ready disk r =
      let (disk', runs, holds) = flush_block-Holds ready disk r in
      let here = (translate-some k.memory d (rounddown addr pgsize) w h.maps).0 in
      let (k', inserts, mapped) =
        Mapped-present h.tables (page_of w) (rounddown addr pgsize) pte_syscall
          (λ e. omega (arith, e, pdx_lem (rounddown addr pgsize), h.inside)) here in
      (
        disk',
        k',
        runs
            ∙ ap
                (λ (x : Run ℤ).
                  Machine.and_then x (λ code. if is_neg code then panics else returns disk'))
                inserts,
        holds,
        mapped,
        entry-clean (page_of w),
      )
