-- ===== src/User/Pipe/Stream.antt =====
-- What comes out of a pipe of lab/lib/pipe.c against what went in.
use adv_os_jos.Prelude.{
  ℕ, ◌+◌, ◌^◌, ◌<◌, ◌≡◌, refl, ◌∙◌, ap, Bool, true, false, ◌⊎◌, inl, inr, List, [], ◌∷◌, ◌++◌,
  arith, length, append_assoc, min, if◌then◌else◌, Bool-cases,
}
use adv_os_jos.User.Pipe.{
  Pipe, Outcome, returned, yielding, put_byte, is_full, devpipe_read, write_loop, devpipe_write,
}
use adv_os_jos.User.Pipe.Content.{content, IsPipe, put-content, put-IsPipe}

-- What a stretch of the reading loop takes from `p`.
abbrev pub Taken : (n : ℕ) (p : Pipe) (bytes : List ℕ) (p' : Pipe) → Type 0
Taken n p bytes p' =
    (bytes ++ content p' ≡ content p) × (length bytes ≡ min n (length (content p))) × IsPipe p'

-- What devpipe_read comes to.
abbrev pub ReadOutcome : (closed : Bool) (n : ℕ) (p : Pipe) → Type 0
ReadOutcome closed n p =
    ((0 < n)
      × (content p ≡ [])
      × (devpipe_read closed n p ≡ (if closed then (returned 0, [], p) else (yielding, [], p))))
    ⊎ ((bytes : List ℕ) × (p' : Pipe) × (devpipe_read closed n p
          ≡ (returned (length bytes), bytes, p'))
        × Taken n p bytes p')

-- How the writing loop stops: with all bytes stored, or at a full pipe.
abbrev pub Stored :
    (closed : Bool) (bytes : List ℕ) (i : ℕ) (p : Pipe) → Outcome × List ℕ × Pipe → Type 0
Stored closed bytes i p (o, left, p') =
    (content p' ++ left ≡ content p ++ bytes)
    × IsPipe p'
    × (((left ≡ []) × (o ≡ returned (i + length bytes)))
        ⊎ ((is_full p' ≡ true) × (o ≡ (if closed then returned 0 else yielding))))

write_loop_lem :
    (closed : Bool) (bytes : List ℕ) (i : ℕ) (p : Pipe)
    → IsPipe p
    → p.p_wpos + length bytes < 2 ^ 31
    → Stored closed bytes i p (write_loop bytes closed i p)
unfolding write_loop
write_loop_lem closed [] i p v small = (refl, v, inl (refl, ap returned (omega arith)))
write_loop_lem closed (b ∷ bytes) i p v small = elim (Bool-cases (is_full p)) [
  | inl e ↦ elim (Bool-cases closed) [
    | inl c ↦ rw (e, c) (refl, v, inr (e, refl))
    | inr c ↦ rw (e, c) (refl, v, inr (e, refl))
  ]
  | inr e ↦ rw e (
      later e (
        write_loop_lem closed bytes (i + 1) (put_byte b p) (put-IsPipe v b e (omega arith))
          (ground arith)))
]
  where
    later :
        {r : Outcome × List ℕ × Pipe}
        → is_full p ≡ false
        → Stored closed bytes (i + 1) (put_byte b p) r
        → Stored closed (b ∷ bytes) i p r
    later e (bytes_eq, v', stop) = (
      bytes_eq
          ∙ ap (λ (xs : List ℕ). xs ++ bytes) (put-content v b e (omega arith))
          ∙ append_assoc (content p) (b ∷ []) bytes,
      v',
      elim stop [ inl (all, o) ↦ inl (all, o ∙ ap returned (omega arith)) | inr full ↦ inr full ],
    )

-- devpipe_write, while fewer than 2 ^ 31 bytes have gone through the pipe: what is in the pipe and
-- then what is left to write are the old content and then the buffer; it stops with nothing left
-- and returns the number of bytes, or at a full pipe, where it returns 0 if the readers are gone and
-- waits if not.
pub devpipe_write_lem :
    (closed : Bool) (bytes : List ℕ) (p : Pipe)
    → IsPipe p
    → p.p_wpos + length bytes < 2 ^ 31
    → Stored closed bytes 0 p (devpipe_write closed bytes p)
unfolding devpipe_write
devpipe_write_lem closed bytes p v small = write_loop_lem closed bytes 0 p v small
