-- ===== src/Fs/Blocks.antt =====
-- The block numbers of a file in lab/fs/fs.c: where they are, and how they are filled.
use adv_os_jos.Prelude.{
  ℕ, ◌+◌, ◌-◌, ◌%◌, ◌^◌, ◌<◌, ◌≤◌, ◌≡◌, ◌≢◌, refl, sym, ◌∙◌, ap, true, false, ◌⊎◌, inl, inr, Option,
  some, ◌==◌, ==_ne, ==_refl, leb, ltb, lt→leb, lt→ltb, le→leb, arith, update, update_self,
  if◌then◌else◌, ℤ, pos, neg, ℕ_discrete,
}
use adv_os_jos.Fs.{
  File, Cmd, pure, diskaddr, ◌>>=◌, Disk, ok, panic, Slot, direct, indirect, load, store,
  file_block_walk, file_get_block, fill_slot, alloc_block, block_is_free, ndirect, nindirect,
  e_no_disk,
}
use adv_os_jos.Fs.Bitmap.{alloc_block_lem}

-- The slot of block `n` of file `f`.
abbrev pub Finds : (s : Disk) (f n : ℕ) → Slot → Type 0
Finds s f n slot = file_block_walk f n false s ≡ ok (pos 0, some slot) s

-- The slots of the blocks that a file can have.
abbrev pub slot_of : (s : Disk) (f n : ℕ) → Slot
slot_of s f n = if ltb n ndirect then direct f n else indirect (s.files f).f_indirect (n - ndirect)

by_index : (g : ℕ → ℕ) (v i j : ℕ) → update g i v j ≡ (if i == j then v else g j)
unfolding update
by_index g v i j = refl

-- A stored number is read back, in the struct and in a block.
load-store_direct :
    (s : Disk) (f n m v : ℕ)
    → load (direct f m) (store (direct f n) v s) ≡ (if n == m then v else (s.files f).f_direct m)
load-store_direct s f n m v =
    ap (λ (x : File). x.f_direct m) (update_self s.files f _) ∙ by_index (s.files f).f_direct v n m

load-store_self : (s : Disk) (f n v : ℕ) → load (direct f n) (store (direct f n) v s) ≡ v
load-store_self s f n v =
    let t : (n == n) ≡ true = ==_refl n in rw t at (load-store_direct s f n n v)

-- The slot of a block lies in the struct or in the 1024 words of the file's indirect block.
abbrev pub HasSlot : (s : Disk) (f n : ℕ) → Slot → Type 0
HasSlot s f n p =
    ((n < 10) × (p ≡ direct f n))
    ⊎ ((i : ℕ) × (n ≡ 10 + i)
        × (i < 1024)
        × ((s.files f).f_indirect ≢ 0)
        × (p ≡ indirect (s.files f).f_indirect i))

-- What file_get_block comes to for a direct block.
abbrev pub GetOutcome : (s : Disk) (f n : ℕ) → Type 0
GetOutcome s f n =
    (((s.files f).f_direct n ≢ 0)
      × (file_get_block f n s ≡ ok (pos 0, some ((s.files f).f_direct n)) s))
    ⊎ (((s.files f).f_direct n ≡ 0)
        × (b : ℕ) × (s' : Disk) × (alloc_block s ≡ ok (pos b) s')
        × (block_is_free b s ≡ true)
        × (file_get_block f n s ≡ ok (pos 0, some b) (store (direct f n) b s')))
    ⊎ (((s.files f).f_direct n ≡ 0)
        × ((c : ℕ) → c < s.s_nblocks → block_is_free c s ≡ false)
        × (file_get_block f n s ≡ panic))

-- the end of file_get_block
abbrev answer : ℕ → Cmd (ℤ × Option ℕ)
answer b = diskaddr b >>= λ a. pure (pos 0, some a)

module _ (s : Disk) (f n : ℕ) (small : n < ndirect) where
  get_present :
      (s.files f).f_direct n ≢ 0
      → (s.files f).f_direct n < s.s_nblocks
      → file_get_block f n s ≡ ok (pos 0, some ((s.files f).f_direct n)) s
  unfolding file_get_block file_block_walk fill_slot
  get_present some_block inside =
      let range : leb (ndirect + nindirect) n ≡ false = ground arith in
      let present : ((s.files f).f_direct n == 0) ≡ false = ==_ne _ 0 some_block in
      rw
        (
          file_get_block,
          file_block_walk,
          range,
          lt→ltb n ndirect small,
          fill_slot,
          present,
          lt→leb _ _ inside,
        )
        (rw present refl)

  get_filled :
      (b : ℕ) (s' : Disk)
      → (s.files f).f_direct n ≡ 0
      → alloc_block s ≡ ok (pos b) s'
      → b ≢ 0
      → b < s'.s_nblocks
      → s'.s_nblocks ≤ 2 ^ 31
      → file_get_block f n s ≡ ok (pos 0, some b) (store (direct f n) b s')
  unfolding file_get_block file_block_walk fill_slot
  get_filled b s' absent e some_block inside few =
      let fits : b % 2 ^ 32 ≡ b = omega arith in
      let range : leb (ndirect + nindirect) n ≡ false = ground arith in
      rw (file_get_block, file_block_walk, range, lt→ltb n ndirect small, fill_slot, absent, e)
        (rw fits (
          ap (λ (x : ℕ). answer x (store (direct f n) b s')) (load-store_self s' f n b)
          ∙ rw (==_ne b 0 some_block, lt→leb b s'.s_nblocks inside) refl))

  get_full :
      (s.files f).f_direct n ≡ 0
      → s.s_nblocks ≤ 2 ^ 31
      → alloc_block s ≡ ok (neg e_no_disk) s
      → file_get_block f n s ≡ panic
  unfolding file_get_block file_block_walk fill_slot
  get_full absent few e =
      let range : leb (ndirect + nindirect) n ≡ false = ground arith in
      rw (file_get_block, file_block_walk, range, lt→ltb n ndirect small, fill_slot, absent, e)
        (ap (λ (x : ℕ). answer x (store (direct f n) 4294967287 s))
            (load-store_self s f n 4294967287)
          ∙ rw (le→leb s.s_nblocks 4294967287 (omega arith)) refl)

-- file_get_block of a direct block, where block 0 is in use, the disk has at most 2 ^ 31 blocks and
-- the block numbers of the file are on the disk: it returns the block that is there, and changes
-- nothing; or it enters the block that alloc_block gives; or no block is free, and it panics.
pub file_get_block_lem :
    (s : Disk) (f n : ℕ)
    → n < ndirect
    → block_is_free 0 s ≡ false
    → s.s_nblocks ≤ 2 ^ 31
    → (s.files f).f_direct n < s.s_nblocks
    → GetOutcome s f n
file_get_block_lem s f n small boot few inside = elim (ℕ_discrete ((s.files f).f_direct n) 0) [
  | no some_block ↦ inl (some_block, get_present s f n small some_block inside)
  | yes absent ↦ elim (alloc_block_lem s boot) [
    | inr (all_used, e) ↦ inr (inr (absent, all_used, get_full s f n small absent few e))
    | inl (b, s', e, lt, is_free, before, after, size, files, words, bytes) ↦
        let not_boot : b ≢ 0 = (λ z.
          let bad : true ≡ false = sym is_free ∙ ap (λ (x : ℕ). block_is_free x s) z ∙ boot in
          cc bad) in
        inr (
          inl (
            absent,
            b,
            s',
            e,
            is_free,
            get_filled s f n small b s' absent e not_boot (rw size lt) (rw size few),
          ))
  ]
]
