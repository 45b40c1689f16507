-- ===== src/Fs/Dir.antt =====
-- The directories of lab/fs/fs.c. A struct File in block `b` at index `j` has the address 16 * b + j,
-- in units of 256 bytes from DISKMAP; the root's is that of block 1.
use adv_os_jos.Prelude.{
  ℕ, zero, suc, ◌+◌, ◌*◌, ◌/◌, ◌%◌, Bool, true, false, not, ◌&&◌, Option, none, some, List, [], ◌∷◌,
  ◌==◌, if◌then◌else◌, ℤ, pos, neg,
}
use adv_os_jos.Fs.{
  Disk, ok, panic, Cmd, pure, modify, ◌>>=◌, ◌>>◌, set_file, file_get_block, blksize, e_not_found,
}

-- BLKFILES
abbrev pub blkfiles : ℕ
blkfiles = 16

-- `&((struct File *) blk)[j]`
abbrev pub struct_at : (b j : ℕ) → ℕ
struct_at b j = b * 16 + j

-- `&super->s_root`
abbrev pub s_root : ℕ
s_root = 16

-- strcmp(a, b) == 0
abbrev pub same_name : List ℕ → List ℕ → Bool
same_name [] [] = true
same_name [] (c ∷ cs) = false
same_name (a ∷ xs) [] = false
same_name (a ∷ xs) (c ∷ cs) = a == c && same_name xs cs

-- `for (j = 0; j < BLKFILES; j++)`: the first struct in block `b` that has the name.
abbrev pub find_in_block : (n j b : ℕ) → List ℕ → Disk → Option ℕ
find_in_block zero j b name s = none
find_in_block (suc n) j b name s =
    let rest = find_in_block n (j + 1) b name s in
    if same_name (s.files (struct_at b j)).f_name name then some (struct_at b j) else rest

-- The loop over the blocks of dir_lookup, from block `i` with `n` rounds left.
lookup_from : (n i dir : ℕ) → List ℕ → Cmd (ℤ × Option ℕ)
lookup_from zero i dir name = pure (neg e_not_found, none)
lookup_from (suc n) i dir name = do
  (r, blk) ← file_get_block dir i
  (λ s. elim blk [
    | none ↦ ok (r, none) s
    | some b ↦ elim (find_in_block blkfiles 0 b name s) [
      | some f ↦ ok (pos 0, some f) s
      | none ↦ lookup_from n (i + 1) dir name s
    ]
  ])

-- The result and `*file`.
unfoldable pub dir_lookup : (dir : ℕ) → List ℕ → Cmd (ℤ × Option ℕ)
unfolding lookup_from
dir_lookup dir name = λ s.
    if not ((s.files dir).f_size % blksize == 0)
    then panic
    else lookup_from ((s.files dir).f_size / blksize) 0 dir name s

-- The loop of dir_alloc_file: a free struct or an error, or no block has one. A free struct has
-- the empty name.
free_entry : (n i dir : ℕ) → Cmd (Option (ℤ × Option ℕ))
free_entry zero i dir = pure none
free_entry (suc n) i dir = do
  (r, blk) ← file_get_block dir i
  (λ s. elim blk [
    | none ↦ ok (some (r, none)) s
    | some b ↦ elim (find_in_block blkfiles 0 b [] s) [
      | some f ↦ ok (some (pos 0, some f)) s
      | none ↦ free_entry n (i + 1) dir s
    ]
  ])

-- The first struct of a new block at the directory's end.
extend_dir : (dir i : ℕ) → Cmd (ℤ × Option ℕ)
extend_dir dir i = do
  modify (λ s. set_file dir (record (s.files dir) { f_size = (s.files dir).f_size + blksize }) s)
  (r, blk) ← file_get_block dir i
  (λ s. elim blk [ none ↦ ok (r, none) s | some b ↦ ok (pos 0, some (struct_at b 0)) s ])

-- The result and `*file`.
unfoldable pub dir_alloc_file : (dir : ℕ) → Cmd (ℤ × Option ℕ)
unfolding free_entry extend_dir
dir_alloc_file dir = λ s.
    if not ((s.files dir).f_size % blksize == 0)
    then panic
    else (do
      found ← free_entry ((s.files dir).f_size / blksize) 0 dir
      (λ s'. elim found [
        | some r ↦ ok r s'
        | none ↦ extend_dir dir ((s.files dir).f_size / blksize) s'
      ]))
        s
