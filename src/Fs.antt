-- ===== src/Fs.antt =====
-- The file system of lab/fs/fs.c: the free-block bitmap, the blocks of a file, and a file's size.
pub mod Cache
pub mod Bitmap
pub mod Blocks
pub mod Data
pub mod Dir
pub mod Path
pub mod Serv
mod Tests
use adv_os_jos.Prelude.{
  ℕ, zero, suc, ◌+◌, ◌-◌, ◌*◌, ◌/◌, ◌%◌, ◌^◌, bit_or, bit_and, Bool, true, false, not, ◌&&◌, ◌||◌,
  Option, none, some, List, [], ◌∷◌, ◌==◌, ltb, leb, update, if◌then◌else◌, ℤ, pos, negsuc, neg,
}
use adv_os_jos.Prelude.Masks.{is_set}

abbrev pub blksize : ℕ
blksize = 4096

abbrev pub ndirect : ℕ
ndirect = 10

abbrev pub nindirect : ℕ
nindirect = 1024

abbrev pub e_inval : ℕ
e_inval = 3

abbrev pub e_no_disk : ℕ
e_no_disk = 9

abbrev pub e_not_found : ℕ
e_not_found = 11

-- struct File, less the padding. The name is the bytes before the NUL.
pub record File : Type 0 where
  pub f_name : List ℕ
  pub f_size : ℕ
  pub f_type : ℕ
  pub f_direct : ℕ → ℕ
  pub f_indirect : ℕ

-- What is flushed.
pub data Flush : Type 0 where
  block : ℕ → Flush
  file : ℕ → Flush

-- The disk map of a server whose blocks are all in memory, so that no access faults: the number of
-- blocks of the super block, the words of the bitmap, the words of each block where it holds block
-- numbers, its bytes where it holds contents, the files by the address of their struct, and the
-- blocks and files flushed, the last first. The views are apart: that a block with numbers, a block
-- with contents and the bitmap are not the same block is taken for granted.
pub record Disk : Type 0 where
  pub s_nblocks : ℕ
  pub bitmap : ℕ → ℕ
  pub words : ℕ → ℕ → ℕ
  pub bytes : ℕ → ℕ → ℕ
  pub files : ℕ → File
  pub flushed : List Flush

pub data Run (A : Type 0) : Type 0 where
  ok : A → Disk → Run A
  panic : Run A

abbrev pub Cmd : Type 0 → Type 0
Cmd A = Disk → Run A

abbrev pub pure : {A : Type 0} → A → Cmd A
pure a = ok a

module _ {A B : Type 0} where
  abbrev pub and_then : Run A → (A → Cmd B) → Run B
  and_then (ok a s) f = f a s
  and_then panic f = panic

  infixl 5 ◌>>=◌ ◌>>◌
  abbrev pub ◌>>=◌ : Cmd A → (A → Cmd B) → Cmd B
  m >>= f = λ s. and_then (m s) f

  abbrev pub ◌>>◌ : Cmd A → Cmd B → Cmd B
  m >> n = m >>= λ _. n

abbrev pub gets : {A : Type 0} → (Disk → A) → Cmd A
gets f s = ok (f s) s

abbrev pub modify : (Disk → Disk) → Cmd (Unit {0})
modify f s = ok tt (f s)

-- diskaddr: the block behind the address
abbrev pub diskaddr : (blockno : ℕ) → Cmd ℕ
diskaddr b = λ s. if b == 0 || leb s.s_nblocks b then panic else ok b s

-- flush_block of a block
abbrev pub flush_block : (b : ℕ) → Cmd (Unit {0})
flush_block b = modify (λ s. record s { flushed = block b ∷ s.flushed })

abbrev pub set_file : ℕ → File → Disk → Disk
set_file f x s = record s { files = update s.files f x }

unfoldable pub block_is_free : (blockno : ℕ) → Disk → Bool
block_is_free b s = if leb s.s_nblocks b then false else is_set (s.bitmap (b / 32)) (b % 32)

-- `bitmap[blockno/32] |= 1<<(blockno%32)`
abbrev pub mark_free : ℕ → Disk → Disk
mark_free b s = record s {
  bitmap = update s.bitmap (b / 32) (bit_or (s.bitmap (b / 32)) (2 ^ (b % 32)));
}

-- `bitmap[i/32] &= ~(1<<(i%32))`
abbrev pub mark_used : ℕ → Disk → Disk
mark_used b s = record s {
  bitmap = update s.bitmap (b / 32) (bit_and (s.bitmap (b / 32)) (2 ^ 32 - 1 - 2 ^ (b % 32)));
}

unfoldable pub free_block : (blockno : ℕ) → Cmd (Unit {0})
free_block b = λ s. if b == 0 then panic else ok tt (mark_free b s)

-- Where the `for` of alloc_block finds a free block, from block `i` with `n` rounds left.
find_free : ℕ → ℕ → Disk → Option ℕ
find_free zero i s = none
find_free (suc n) i s =
    let rest = find_free n (i + 1) s in if block_is_free i s then some i else rest

unfoldable pub alloc_block : Cmd ℤ
unfolding find_free
alloc_block = λ s. elim (find_free s.s_nblocks 0 s) [
  | none ↦ ok (neg e_no_disk) s
  | some i ↦ (do modify (mark_used i); b ← diskaddr i; flush_block b; pure (pos i)) s
]

-- A `uint32_t *` to a block number of a file.
pub data Slot : Type 0 where
  direct : (f filebno : ℕ) → Slot
  indirect : (blockno i : ℕ) → Slot

abbrev pub load : Slot → Disk → ℕ
load (direct f n) s = (s.files f).f_direct n
load (indirect b i) s = s.words b i

abbrev pub store : Slot → ℕ → Disk → Disk
store (direct f n) b s =
    set_file f (record (s.files f) { f_direct = update (s.files f).f_direct n b }) s
store (indirect b i) v s = record s { words = update s.words b (update (s.words b) i v) }

-- The slot behind the indirect block.
slot_behind : (f filebno : ℕ) → Cmd (ℤ × Option Slot)
slot_behind f filebno = do
  b ← gets (λ s. (s.files f).f_indirect)
  a ← diskaddr b
  pure (pos 0, some (indirect a (filebno - ndirect)))

-- A new indirect block, cleared and flushed.
new_indirect : (f filebno : ℕ) → Cmd (ℤ × Option Slot)
unfolding slot_behind
new_indirect f filebno = do
  r ← alloc_block
  (λ s. elim r [
    | pos b ↦
        (do
          modify (λ s'. set_file f (record (s'.files f) { f_indirect = b }) s')
          a ← diskaddr b
          modify (λ s'. record s' { words = update s'.words a (λ _. 0) })
          flush_block a
          slot_behind f filebno)
          s
    | negsuc c ↦ ok (negsuc c, none) s
  ])

-- The result and `*ppdiskbno`.
unfoldable pub file_block_walk : (f filebno : ℕ) (alloc : Bool) → Cmd (ℤ × Option Slot)
unfolding new_indirect slot_behind
file_block_walk f filebno alloc = λ s.
    if leb (ndirect + nindirect) filebno
    then ok (neg e_inval, none) s
    else if ltb filebno ndirect
    then ok (pos 0, some (direct f filebno)) s
    else if (s.files f).f_indirect == 0
    then (if not alloc then ok (neg e_not_found, none) s else new_indirect f filebno s)
    else slot_behind f filebno s

-- The bit pattern that an `int` leaves in a `uint32_t`.
abbrev pub word : ℤ → ℕ
word (pos n) = n % 2 ^ 32
word (negsuc n) = 2 ^ 32 - 1 - n

-- `(*pdiskbno = alloc_block()) < 0` is a test of a `uint32_t`, and never true.
fill_slot : Slot → Cmd (Unit {0})
fill_slot slot =
    λ s. if load slot s == 0 then (do r ← alloc_block; modify (store slot (word r))) s else ok tt s

-- The result and `*blk`.
unfoldable pub file_get_block : (f filebno : ℕ) → Cmd (ℤ × Option ℕ)
unfolding fill_slot
file_get_block f filebno = do
  (r, found) ← file_block_walk f filebno true
  (λ s. elim found [
    | none ↦ ok (r, none) s
    | some slot ↦ (do fill_slot slot; b ← gets (load slot); a ← diskaddr b; pure (pos 0, some a)) s
  ])

unfoldable pub file_free_block : (f filebno : ℕ) → Cmd ℤ
file_free_block f filebno = do
  (r, found) ← file_block_walk f filebno false
  (λ s. elim found [
    | none ↦ ok r s
    | some slot ↦
        (if load slot s == 0
          then ok (pos 0) s
          else (do free_block (load slot s); modify (store slot 0); pure (pos 0)) s)
  ])

-- The `for` of file_truncate_blocks, with the rounds left. A failure is only printed.
free_from : ℕ → (f bno : ℕ) → Cmd (Unit {0})
free_from zero f bno = pure tt
free_from (suc n) f bno = do _ ← file_free_block f bno; free_from n f (bno + 1)

-- `if (new_nblocks <= NDIRECT && f->f_indirect)`
free_indirect : (f new_nblocks : ℕ) → Cmd (Unit {0})
free_indirect f n = λ s.
    if leb n ndirect && not ((s.files f).f_indirect == 0)
    then (do
      free_block (s.files f).f_indirect
      modify (λ s'. set_file f (record (s'.files f) { f_indirect = 0 }) s'))
        s
    else ok tt s

abbrev pub nblocks : (size : ℕ) → ℕ
nblocks size = (size + blksize - 1) / blksize

unfoldable pub file_truncate_blocks : (f newsize : ℕ) → Cmd (Unit {0})
unfolding free_from free_indirect
file_truncate_blocks f newsize = do
  size ← gets (λ s. (s.files f).f_size)
  free_from (nblocks size - nblocks newsize) f (nblocks newsize)
  free_indirect f (nblocks newsize)

-- Sizes are non-negative as `off_t`.
unfoldable pub file_set_size : (f newsize : ℕ) → Cmd ℤ
file_set_size f newsize = do
  size ← gets (λ s. (s.files f).f_size)
  (if ltb newsize size then file_truncate_blocks f newsize else pure tt)
  modify (λ s. set_file f (record (s.files f) { f_size = newsize }) s)
  modify (λ s. record s { flushed = file f ∷ s.flushed })
  pure (pos 0)
