-- ===== src/Fs/Data/Read.antt =====
-- file_read of lab/fs/fs.c.
use adv_os_jos.Prelude.{
  ℕ, zero, suc, ◌+◌, ◌-◌, ◌*◌, ◌/◌, ◌%◌, ◌<◌, ◌≤◌, ◌≡◌, refl, sym, ◌∙◌, ap, ap₂, inl, inr, leb,
  le→leb, lt→leb, Bool-cases, arith, ℤ, pos, List, [], ◌∷◌, ◌++◌, min,
}
use adv_os_jos.Fs.{Disk, Run, and_then, Cmd, ok, pure, ◌>>=◌, blksize, nblocks}
use adv_os_jos.Fs.Data.{copy, step_size, read_from, file_read}
use adv_os_jos.Fs.Data.Mapped.{Mapped, Whole, block_of, byte_at, contents, get-Mapped}

pub contents-split :
    (s : Disk) (f n m p : ℕ) → contents s f (n + m) p ≡ contents s f n p ++ contents s f m (p + n)
contents-split s f zero m p = ap₂ (contents s f) (omega arith) (omega arith)
contents-split s f (suc n) m p =
    ap (λ (t : ℕ). contents s f t p) {y = suc (n + m)} (omega arith)
    ∙ ap (λ (xs : List ℕ). byte_at s f p ∷ xs)
        (contents-split s f n m (p + 1)
          ∙ ap (λ (q : ℕ). contents s f n (p + 1) ++ contents s f m q) (omega arith))

-- Bytes of one block.
copy-contents :
    (s : Disk) (f n p x : ℕ)
    → p % blksize + x + n ≤ blksize
    → copy n (p % blksize + x) (s.bytes (block_of s f (p / blksize))) ≡ contents s f n (p + x)
copy-contents s f zero p x fits = refl
copy-contents s f (suc n) p x fits =
    let same_block : (p + x) / blksize ≡ p / blksize = omega arith in
    let same_place : (p + x) % blksize ≡ p % blksize + x = omega arith in
    ap₂ (λ (y : ℕ) (ys : List ℕ). y ∷ ys)
      (ap₂ (λ (b o : ℕ). s.bytes (block_of s f b) o) (sym same_block) (sym same_place))
      (ap (λ (o : ℕ). copy n o (s.bytes (block_of s f (p / blksize)))) (omega arith)
        ∙ copy-contents s f n p (x + 1) (omega arith)
        ∙ ap (contents s f n) (omega arith))

abbrev round : (stop f p b : ℕ) → Cmd (ℤ × List ℕ) → Cmd (ℤ × List ℕ)
round stop f p b rest =
    λ s. (rest >>= λ r. pure (r.0, copy (step_size stop p) (p % blksize) (s.bytes b) ++ r.1)) s

-- A round of the loop.
read_from-suc :
    (fuel stop f p : ℕ) (s : Disk)
    → p < stop
    → Mapped s f (p / blksize)
    → read_from (suc fuel) stop f p s
      ≡ round stop f p (block_of s f (p / blksize)) (read_from fuel stop f (p + step_size stop p)) s
unfolding read_from
read_from-suc fuel stop f p s more m =
    rw (read_from, lt→leb p stop more, get-Mapped s f (p / blksize) m) refl

read_from-stop :
    (fuel stop f p : ℕ) (s : Disk) → stop ≤ p → read_from fuel stop f p s ≡ ok (pos 0, []) s
unfolding read_from
read_from-stop zero stop f p s h = rw (read_from, le→leb stop p h) refl
read_from-stop (suc fuel) stop f p s h = rw (read_from, le→leb stop p h) refl

pub step_size_lem :
    (stop p : ℕ)
    → p < stop
    → (0 < step_size stop p)
      × (p + step_size stop p ≤ stop)
      × (p % blksize + step_size stop p ≤ blksize)
step_size_lem stop p more = (omega arith, omega arith, omega arith)

module _ (s : Disk) (f n : ℕ) (whole : Whole s f n) where
  read_from-contents :
      (fuel d p : ℕ)
      → d ≤ fuel
      → p + d ≤ n * blksize
      → read_from fuel (p + d) f p s ≡ ok (pos 0, contents s f d p) s
  read_from-contents fuel zero p enough fits = read_from-stop fuel (p + 0) f p s (omega arith)
  read_from-contents zero (suc d) p enough fits = absurd (omega arith)
  read_from-contents (suc fuel) (suc d) p enough fits =
      let stop : ℕ = p + suc d in
      let bn : ℕ = step_size stop p in
      let (some_bytes, before_end, in_block) = step_size_lem stop p (omega arith) in
      let left : ℕ = stop - (p + bn) in
      let there : p + bn + left ≡ stop = omega (arith, before_end) in
      let ih : read_from fuel stop f (p + bn) s ≡ ok (pos 0, contents s f left (p + bn)) s =
        rw there at (
          read_from-contents fuel left (p + bn) (omega (arith, some_bytes, enough))
            (omega (arith, fits, there))) in
      read_from-suc fuel stop f p s (omega arith) (whole (p / blksize) (omega (arith, fits)))
      ∙ ap
          (λ (r : Run (ℤ × List ℕ)).
            and_then r (λ x.
              pure (x.0, copy bn (p % blksize) (s.bytes (block_of s f (p / blksize))) ++ x.1)))
          ih
      ∙ ap (λ (xs : List ℕ). ok (pos 0, xs) s)
          (ap₂ (λ (xs ys : List ℕ). xs ++ ys)
              (ap (λ (o : ℕ). copy bn o (s.bytes (block_of s f (p / blksize)))) (omega arith)
                ∙ copy-contents s f bn p 0 (omega (arith, in_block))
                ∙ ap (contents s f bn) (omega arith))
              refl
            ∙ sym (contents-split s f bn left p)
            ∙ ap (λ (t : ℕ). contents s f t p) {y = suc d} (omega (arith, there)))

  -- file_read of a file of `size` bytes.
  file_read-at :
      (count offset : ℕ)
      → (s.files f).f_size ≤ n * blksize
      → let m = min count ((s.files f).f_size - offset) in
        file_read f count offset s ≡ ok (pos m, contents s f m offset) s
  unfolding file_read
  file_read-at count offset room = elim (Bool-cases (leb (s.files f).f_size offset)) [
    | inl t ↦
        let none_left : min count ((s.files f).f_size - offset) ≡ 0 = ground arith in
        rw (t, none_left) refl
    | inr t ↦
        let inside : offset < (s.files f).f_size = ground arith in
        rw
          (
            t,
            read_from-contents (min count ((s.files f).f_size - offset))
                (min count ((s.files f).f_size - offset)) offset (omega arith) (omega arith),
          )
          refl
  ]

-- file_read of a file whose blocks are all there returns, and leaves the disk as it was. The result
-- is the number of bytes between `offset` and the end of the file, or `count` if that is less, and
-- the buffer has those bytes of the file, from `offset` on.
pub file_read_lem :
    (s : Disk) (f count offset : ℕ)
    → Whole s f (nblocks (s.files f).f_size)
    → let n = min count ((s.files f).f_size - offset) in
      file_read f count offset s ≡ ok (pos n, contents s f n offset) s
file_read_lem s f count offset whole =
    file_read-at s f (nblocks (s.files f).f_size) whole count offset (omega arith)
