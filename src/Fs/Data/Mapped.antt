-- ===== src/Fs/Data/Mapped.antt =====
-- The blocks of a file that has them all, in lab/fs/fs.c.
use adv_os_jos.Prelude.{
  ℕ, ◌+◌, ◌-◌, ◌/◌, ◌%◌, ◌<◌, ◌≤◌, ◌≡◌, ◌≢◌, refl, false, inl, inr, some, ◌==◌, ==_ne, leb, ltb,
  lt→leb, Bool-cases, arith, pos, if◌then◌else◌, List, [], ◌∷◌, zero, suc,
}
use adv_os_jos.Fs.{
  Disk, ok, file_block_walk, file_get_block, fill_slot, slot_behind, ndirect, nindirect, blksize,
}

-- the number of block `n` of the file `f`
abbrev pub block_of : (s : Disk) (f n : ℕ) → ℕ
block_of s f n =
    if ltb n ndirect then (s.files f).f_direct n else s.words (s.files f).f_indirect (n - ndirect)

-- Block `n` of `f` is there, and on the disk.
pub record Mapped (s : Disk) (f n : ℕ) : Type 0 where
  pub within : n < ndirect + nindirect
  pub there : block_of s f n ≢ 0
  pub on_disk : block_of s f n < s.s_nblocks
  pub ind_there : ndirect ≤ n → (s.files f).f_indirect ≢ 0
  pub ind_on_disk : ndirect ≤ n → (s.files f).f_indirect < s.s_nblocks

-- Each of the first `n` blocks is there.
abbrev pub Whole : (s : Disk) (f n : ℕ) → Type 0
Whole s f n = (i : ℕ) → i < n → Mapped s f i

-- No two of the first `n` blocks are one.
abbrev pub Distinct : (s : Disk) (f n : ℕ) → Type 0
Distinct s f n = (i j : ℕ) → i < n → j < n → block_of s f i ≡ block_of s f j → i ≡ j

-- The byte at position `p` of the file.
abbrev pub byte_at : (s : Disk) (f p : ℕ) → ℕ
byte_at s f p = s.bytes (block_of s f (p / blksize)) (p % blksize)

-- The `n` bytes from position `p` on.
abbrev pub contents : (s : Disk) (f n p : ℕ) → List ℕ
contents s f zero p = []
contents s f (suc n) p = byte_at s f p ∷ contents s f n (p + 1)

pub get-Mapped :
    (s : Disk) (f n : ℕ) → Mapped s f n → file_get_block f n s ≡ ok (pos 0, some (block_of s f n)) s
unfolding file_get_block file_block_walk fill_slot slot_behind
get-Mapped s f n m = elim (Bool-cases (ltb n ndirect)) [
  | inl t ↦
      let range : leb (ndirect + nindirect) n ≡ false = ground (arith, m.within) in
      let present : ((s.files f).f_direct n == 0) ≡ false = ==_ne _ 0 (rw t at m.there) in
      let inside : leb s.s_nblocks ((s.files f).f_direct n) ≡ false =
        lt→leb _ _ (rw t at m.on_disk) in
      rw (file_get_block, file_block_walk, range, t, fill_slot, present, inside) (rw present refl)
  | inr t ↦
      let big : ndirect ≤ n = ground arith in
      let range : leb (ndirect + nindirect) n ≡ false = ground (arith, m.within) in
      let ind : ((s.files f).f_indirect == 0) ≡ false = ==_ne _ 0 (m.ind_there big) in
      let ind_in : leb s.s_nblocks (s.files f).f_indirect ≡ false =
        lt→leb _ _ (m.ind_on_disk big) in
      let present : (s.words (s.files f).f_indirect (n - ndirect) == 0) ≡ false =
        ==_ne _ 0 (rw t at m.there) in
      let inside : leb s.s_nblocks (s.words (s.files f).f_indirect (n - ndirect)) ≡ false =
        lt→leb _ _ (rw t at m.on_disk) in
      rw
        (
          file_get_block, file_block_walk, range, t, ind, slot_behind, ind_in, fill_slot, present,
          inside,
        )
        (rw present refl)
]
