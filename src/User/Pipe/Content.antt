-- ===== src/User/Pipe/Content.antt =====
-- The bytes in a pipe of lab/lib/pipe.c as a queue.
use adv_os_jos.Prelude.{
  ℕ, zero, suc, ◌+◌, ◌-◌, ◌%◌, ◌^◌, ◌<◌, ◌≤◌, ◌≡◌, ◌≢◌, refl, ◌∙◌, ap, ap₂, false, List, [], ◌∷◌,
  ◌++◌, update, update_self, update_ne, arith, length,
}
use adv_os_jos.User.Pipe.{Pipe, pipebufsiz, take_byte, put_byte, next_byte, is_empty, is_full}

-- The `n` bytes of the ring from a position.
abbrev pub segment : (ℕ → ℕ) → ℕ → ℕ → List ℕ
segment buf pos zero = []
segment buf pos (suc n) = buf (pos % pipebufsiz) ∷ segment buf (pos + 1) n

-- the bytes written and not yet read
abbrev pub content : Pipe → List ℕ
content p = segment p.p_buf p.p_rpos (p.p_wpos - p.p_rpos)

-- The positions are non-negative as `off_t`, and apart by what the buffer holds.
pub record IsPipe (p : Pipe) : Type 0 where
  pub behind : p.p_rpos ≤ p.p_wpos
  pub within : p.p_wpos ≤ p.p_rpos + pipebufsiz
  pub in_range : p.p_wpos < 2 ^ 31

-- A write elsewhere leaves a segment as it is.
pub segment-update :
    (buf : ℕ → ℕ) (pos n j b : ℕ)
    → ((i : ℕ) → i < n → j ≢ (pos + i) % pipebufsiz)
    → segment (update buf j b) pos n ≡ segment buf pos n
segment-update buf pos zero j b apart = refl
segment-update buf pos (suc n) j b apart =
    let here : update buf j b (pos % pipebufsiz) ≡ buf (pos % pipebufsiz) =
      update_ne buf j b (pos % pipebufsiz) (ground (arith, apart 0)) in
    ap₂ (λ (x : ℕ) (xs : List ℕ). x ∷ xs) here
      (segment-update buf (pos + 1) n j b (λ i h e. apart (suc i) (omega arith) (omega (arith, e))))

pub segment_snoc :
    (buf : ℕ → ℕ) (pos n : ℕ)
    → segment buf pos (suc n) ≡ segment buf pos n ++ (buf ((pos + n) % pipebufsiz) ∷ [])
segment_snoc buf pos zero = ap (λ (t : ℕ). buf (t % pipebufsiz) ∷ []) (omega arith)
segment_snoc buf pos (suc n) =
    ap (λ (xs : List ℕ). buf (pos % pipebufsiz) ∷ xs) (segment_snoc buf (pos + 1) n)
    ∙ (ap
        (λ (t : ℕ).
          buf (pos % pipebufsiz) ∷ (segment buf (pos + 1) n ++ (buf (t % pipebufsiz) ∷ [])))
        (omega arith))

pub length-segment : (buf : ℕ → ℕ) (pos n : ℕ) → length (segment buf pos n) ≡ n
length-segment buf pos zero = refl
length-segment buf pos (suc n) = ap suc (length-segment buf (pos + 1) n)

module _ {p : Pipe} (v : IsPipe p) where
  pub take-content : is_empty p ≡ false → content p ≡ next_byte p ∷ content (take_byte p)
  take-content some_left =
      let some_bytes : p.p_wpos - p.p_rpos ≡ suc (p.p_wpos - (p.p_rpos + 1)) =
        ground (arith, v.behind) in
      let next : (p.p_rpos + 1) % 2 ^ 32 ≡ p.p_rpos + 1 = ground (arith, v.behind, v.in_range) in
      rw (some_bytes, next) refl

  pub take-IsPipe : is_empty p ≡ false → IsPipe (take_byte p)
  take-IsPipe some_left = record {
    behind = ground (arith, v.behind, v.in_range);
    within = ground (arith, v.within, v.in_range);
    in_range = v.in_range;
  }

  pub put-content :
      (b : ℕ)
      → is_full p ≡ false
      → p.p_wpos + 1 < 2 ^ 31
      → content (put_byte b p) ≡ content p ++ (b ∷ [])
  put-content b room small =
      let next : (p.p_wpos + 1) % 2 ^ 32 ≡ p.p_wpos + 1 = omega arith in
      let longer : p.p_wpos + 1 - p.p_rpos ≡ suc n = omega (arith, v.behind) in
      let end : p.p_rpos + n ≡ p.p_wpos = omega (arith, v.behind) in
      rw (next, longer)
        (segment_snoc buf p.p_rpos n
          ∙ ap₂ (λ (xs : List ℕ) (x : ℕ). xs ++ (x ∷ []))
              (segment-update p.p_buf p.p_rpos n _ b apart)
              (rw end (update_self p.p_buf (p.p_wpos % pipebufsiz) b)))
    where
      n : ℕ
      n = p.p_wpos - p.p_rpos

      buf : ℕ → ℕ
      buf = update p.p_buf (p.p_wpos % pipebufsiz) b

      apart : (i : ℕ) → i < n → p.p_wpos % pipebufsiz ≢ (p.p_rpos + i) % pipebufsiz
      apart i lt = ground (arith, v.behind, v.in_range)

  pub put-IsPipe : (b : ℕ) → is_full p ≡ false → p.p_wpos + 1 < 2 ^ 31 → IsPipe (put_byte b p)
  put-IsPipe b room small = record {
    behind = ground (arith, v.behind);
    within = ground (arith, v.within, v.in_range, v.behind);
    in_range = ground arith;
  }
