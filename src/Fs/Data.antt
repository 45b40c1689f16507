-- ===== src/Fs/Data.antt =====
-- The contents of files in lab/fs/fs.c: file_read, file_write, and fs_sync. A caller's buffer is the
-- list of the bytes read into it, or the function from an index to its byte.
pub mod Mapped
pub mod Read
pub mod Tests
use adv_os_jos.Prelude.{
  ℕ, zero, suc, ◌+◌, ◌-◌, ◌/◌, ◌%◌, ◌^◌, ◌&&◌, none, some, List, [], ◌∷◌, ◌++◌, ltb, leb, min,
  update, if◌then◌else◌, ℤ, pos, negsuc,
}
use adv_os_jos.Fs.{
  Disk, ok, panic, Cmd, pure, gets, modify, ◌>>=◌, ◌>>◌, blksize, file_get_block, file_set_size,
  diskaddr, flush_block,
}

-- memmove(buf, page + o, n)
abbrev pub copy : (n o : ℕ) → (ℕ → ℕ) → List ℕ
copy zero o page = []
copy (suc n) o page = page o ∷ copy n (o + 1) page

-- memmove(page + o, buf + i, n)
abbrev pub paste : (n o i : ℕ) → (buf page : ℕ → ℕ) → ℕ → ℕ
paste n o i buf page = λ x. if leb o x && ltb x (o + n) then buf (i + (x - o)) else page x

-- `bn`: the bytes from `p` to the end of its block, or to `stop`
abbrev pub step_size : (stop p : ℕ) → ℕ
step_size stop p = min (blksize - p % blksize) (stop - p)

-- The `for` of file_read, on fuel; without it, a panic. `stop` is `offset + count`. An error of
-- file_get_block is the result.
read_from : (fuel stop f p : ℕ) → Cmd (ℤ × List ℕ)
read_from zero stop f p = λ s. if leb stop p then ok (pos 0, []) s else panic
read_from (suc fuel) stop f p = λ s.
    if leb stop p
    then ok (pos 0, []) s
    else (do
      (r, blk) ← file_get_block f (p / blksize)
      (λ s'. elim blk [
        | none ↦ ok (r, []) s'
        | some b ↦
            (do
              (r', bytes) ← read_from fuel stop f (p + step_size stop p)
              pure (r', copy (step_size stop p) (p % blksize) (s'.bytes b) ++ bytes))
              s'
      ]))
        s

-- `return count`, or the error
abbrev pub count_or : (count : ℕ) → ℤ → ℤ
count_or count (pos _) = pos count
count_or count (negsuc c) = negsuc c

-- The result, and the bytes written to `buf`.
unfoldable pub file_read : (f count offset : ℕ) → Cmd (ℤ × List ℕ)
unfolding read_from
file_read f count offset = do
  size ← gets (λ s. (s.files f).f_size)
  (if leb size offset
      then pure (pos 0, [])
      else (let n = min count (size - offset) in
          do (r, bytes) ← read_from n (offset + n) f offset; pure (count_or n r, bytes)))

-- The `for` of file_write, as above, from index `i` of the buffer.
write_from : (fuel stop f p i : ℕ) → (buf : ℕ → ℕ) → Cmd ℤ
write_from zero stop f p i buf = λ s. if leb stop p then ok (pos 0) s else panic
write_from (suc fuel) stop f p i buf = λ s.
    if leb stop p
    then ok (pos 0) s
    else (do
      (r, blk) ← file_get_block f (p / blksize)
      (λ s'. elim blk [
        | none ↦ ok r s'
        | some b ↦
            (do
              modify (λ s''. record s'' {
                bytes =
                    update s''.bytes b (paste (step_size stop p) (p % blksize) i buf (s''.bytes b));
              })
              write_from fuel stop f (p + step_size stop p) (i + step_size stop p) buf)
              s'
      ]))
        s

-- file_set_size never fails.
unfoldable pub file_write : (f : ℕ) (buf : ℕ → ℕ) (count offset : ℕ) → Cmd ℤ
unfolding write_from
file_write f buf count offset = do
  size ← gets (λ s. (s.files f).f_size)
  (if ltb size ((offset + count) % 2 ^ 32)
      then (file_set_size f ((offset + count) % 2 ^ 32) >>= λ _. pure tt)
      else pure tt)
  r ← write_from count ((offset + count) % 2 ^ 32) f offset 0 buf
  pure (count_or count r)

-- The `for` of fs_sync, from block `i` with `n` rounds left.
sync_from : (n i : ℕ) → Cmd (Unit {0})
sync_from zero i = pure tt
sync_from (suc n) i = do a ← diskaddr i; flush_block a; sync_from n (i + 1)

unfoldable pub fs_sync : Cmd (Unit {0})
unfolding sync_from
fs_sync = do n ← gets (λ s. s.s_nblocks); sync_from (n - 1) 1
