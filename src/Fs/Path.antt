-- ===== src/Fs/Path.antt =====
-- The path names of lab/fs/fs.c, and the creation, opening and flushing of files. A path is the list
-- of its bytes before the NUL.
pub mod Parts
use adv_os_jos.Prelude.{
  ℕ, zero, suc, ◌+◌, ◌/◌, Bool, true, false, not, ◌&&◌, ◌||◌, Option, none, some, List, [], ◌∷◌,
  ◌==◌, leb, length, if◌then◌else◌, ℤ, pos, negsuc, neg,
}
use adv_os_jos.Fs.{
  Disk, File, Run, ok, panic, Cmd, pure, gets, modify, ◌>>=◌, ◌>>◌, set_file, file_block_walk, load,
  diskaddr, flush_block, file, nblocks, blksize, e_not_found,
}
use adv_os_jos.Fs.Dir.{s_root, dir_lookup, dir_alloc_file}

abbrev pub maxnamelen : ℕ
maxnamelen = 128

abbrev pub ftype_dir : ℕ
ftype_dir = 1

abbrev pub e_bad_path : ℕ
e_bad_path = 12

abbrev pub e_file_exists : ℕ
e_file_exists = 13

abbrev pub slash : ℕ
slash = 47

-- Skip over slashes.
abbrev pub skip_slash : List ℕ → List ℕ
skip_slash [] = []
skip_slash (c ∷ p) = let rest = skip_slash p in if c == slash then rest else c ∷ p

-- `while (*path != '/' && *path != '\0') path++;`: the bytes passed, and the rest.
abbrev pub next_name : List ℕ → List ℕ × List ℕ
next_name [] = ([], [])
next_name (c ∷ p) =
    let rest = next_name p in if c == slash then ([], c ∷ p) else (c ∷ rest.0, rest.1)

-- The result of walk_path, `*pf`, `*pdir`, and `lastelem` where that is written.
pub record Walk : Type 0 where
  pub result : ℤ
  pub pf : Option ℕ
  pub pdir : Option ℕ
  pub lastelem : Option (List ℕ)

abbrev pub failed : ℕ → Walk
failed e = record { result = neg e; pf = none; pdir = none; lastelem = none }

-- `r == -E_NOT_FOUND`
abbrev pub is_not_found : ℤ → Bool
is_not_found (pos n) = false
is_not_found (negsuc n) = n + 1 == e_not_found

-- A lookup in `dir` that failed with `r`, with `path` left.
abbrev pub missing : (r : ℤ) (dir : ℕ) (name path : List ℕ) → Walk
missing r dir name [] =
    if is_not_found r
    then record { result = r; pf = none; pdir = some dir; lastelem = some name }
    else record { result = r; pf = none; pdir = none; lastelem = none }
missing r dir name (c ∷ path) = record { result = r; pf = none; pdir = none; lastelem = none }

-- One element `name` of a path at `f`; `go` is the walk of the rest, from the file that it names.
abbrev pub walk_element : (f : ℕ) (name path : List ℕ) → (ℕ → Cmd Walk) → Cmd Walk
walk_element f name path go s =
    if leb maxnamelen (length name)
    then ok (failed e_bad_path) s
    else if not ((s.files f).f_type == ftype_dir)
    then ok (failed e_not_found) s
    else (do
      (r, found) ← dir_lookup f name
      (λ s'. elim found [ none ↦ ok (missing r f name path) s' | some g ↦ go g s' ]))
        s

-- The `while (*path != '\0')`, on fuel; without it, a panic. `dir` is the directory of `f`.
walk_from : (fuel : ℕ) (dir : Option ℕ) (f : ℕ) → List ℕ → Cmd Walk
walk_from fuel dir f [] s =
    ok (record { result = pos 0; pf = some f; pdir = dir; lastelem = none }) s
walk_from zero dir f (c ∷ path) s = panic
walk_from (suc fuel) dir f (c ∷ path) s =
    let (name, rest) = next_name (c ∷ path) in
    walk_element f name (skip_slash rest) (λ g. walk_from fuel (some f) g (skip_slash rest)) s

unfoldable pub walk_path : List ℕ → Cmd Walk
unfolding walk_from
walk_path path = walk_from (length path) none s_root (skip_slash path)

-- The `for` of file_flush, from block `i` with `n` rounds left.
flush_from : (n i f : ℕ) → Cmd (Unit {0})
flush_from zero i f = pure tt
flush_from (suc n) i f = do
  (r, found) ← file_block_walk f i false
  (λ s. elim found [
    | none ↦ ok tt s
    | some slot ↦
        (if load slot s == 0 then pure tt else (do a ← diskaddr (load slot s); flush_block a)) s
  ])
  flush_from n (i + 1) f

unfoldable pub file_flush : (f : ℕ) → Cmd (Unit {0})
unfolding flush_from
file_flush f = do
  size ← gets (λ s. (s.files f).f_size)
  flush_from (nblocks size) 0 f
  modify (λ s. record s { flushed = file f ∷ s.flushed })
  b ← gets (λ s. (s.files f).f_indirect)
  if b == 0 then pure tt else (do a ← diskaddr b; flush_block a)

-- The new file `name` in `dir`.
create_in : (dir : ℕ) → List ℕ → Cmd (ℤ × Option ℕ)
create_in dir name = do
  (r, found) ← dir_alloc_file dir
  (λ s. elim found [
    | none ↦ ok (r, none) s
    | some f ↦
        (do
          modify (λ s'. set_file f (record (s'.files f) { f_name = name }) s')
          file_flush dir
          pure (pos 0, some f))
          s
  ])

-- the bytes that walk_path left in `name`
abbrev pub name_of : Option (List ℕ) → List ℕ
name_of none = []
name_of (some name) = name

-- The result and `*pf`, `none` where that is not written.
unfoldable pub file_create : List ℕ → Cmd (ℤ × Option ℕ)
unfolding create_in
file_create path = do
  w ← walk_path path
  (λ s. elim w.result [
    | pos _ ↦ ok (neg e_file_exists, none) s
    | negsuc n ↦ elim w.pdir [
      | none ↦ ok (negsuc n, none) s
      | some dir ↦
          (if is_not_found (negsuc n)
              then create_in dir (name_of w.lastelem)
              else pure (negsuc n, none))
            s
    ]
  ])

unfoldable pub file_open : List ℕ → Cmd (ℤ × Option ℕ)
file_open path = do w ← walk_path path; pure (w.result, w.pf)
