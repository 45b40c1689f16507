-- ===== src/Clib/Format/Buffer.antt =====
-- What vsnprintf of lab/lib/printfmt.c leaves in the buffer.
use adv_os_jos.Prelude.{
  ℕ, zero, suc, ◌+◌, ◌-◌, ◌%◌, ◌^◌, ◌≤◌, ◌<◌, min, false, ◌||◌, some, List, [], ◌∷◌, length, get_or,
  ◌≡◌, ◌⊎◌, inl, inr, refl, ap, ◌∙◌, ◌==◌, ==_ne, ltb, lt→ltb, le→ltb, update, update_self,
  update_ne, arith, pos,
}
use adv_os_jos.Clib.Str.{Bytes}
use adv_os_jos.Clib.Format.{Arg, Sprintbuf, put_all, vprintfmt, vsnprintf}

-- The characters `out`, cut to `room` bytes, are at `buf`, and no other byte changed.
pub record Filled (m m' : Bytes) (buf room : ℕ) (out : List ℕ) : Type 0 where
  pub chars : (i : ℕ) → i < min room (length out) → m' (buf + i) ≡ get_or out i 0 % 2 ^ 8
  pub others : (a : ℕ) → ((a < buf) ⊎ (buf + min room (length out) ≤ a)) → m' a ≡ m a

-- What putting all characters leaves of the memory and of the struct.
record Put (m : Bytes) (b : Sprintbuf) (room : ℕ) (out : List ℕ) (r : Bytes × Sprintbuf)
    : Type 0 where
  at : r.1.buf ≡ b.buf + min room (length out)
  counted : r.1.cnt ≡ b.cnt + length out
  filled : Filled m r.0 b.buf room out

put_all-Put :
    (out : List ℕ) (m : Bytes) (b : Sprintbuf) (room : ℕ)
    → b.ebuf ≡ b.buf + room
    → Put m b room out (put_all out (m, b))
unfolding put_all
put_all-Put [] m b room e = record {
  at = omega arith;
  counted = omega arith;
  filled = record { chars = λ i less. absurd (omega arith); others = λ a h. refl };
}
put_all-Put (ch ∷ out) m b zero e =
    rw (le→ltb b.buf b.ebuf (omega arith))
      (full (put_all-Put out m (record b { cnt = b.cnt + 1 }) zero e))
  where
    full :
        {r : Bytes × Sprintbuf}
        → Put m (record b { cnt = b.cnt + 1 }) zero out r
        → Put m b zero (ch ∷ out) r
    full h = record {
      at = let q = h.at in omega arith;
      counted = let q = h.counted in omega arith;
      filled = record {
        chars = λ i less. absurd (omega arith);
        others = λ a w. h.filled.others a (elim w [ inl x ↦ inl x | inr x ↦ inr (omega arith) ]);
      };
    }
put_all-Put (ch ∷ out) m b (suc room) e = rw (lt→ltb b.buf b.ebuf (omega arith)) (
    full (
      put_all-Put out (update m b.buf (ch % 2 ^ 8)) (record b { buf = b.buf + 1; cnt = b.cnt + 1 })
        room (omega arith)))
  where
    m1 : Bytes
    m1 = update m b.buf (ch % 2 ^ 8)

    full :
        {r : Bytes × Sprintbuf}
        → Put m1 (record b { buf = b.buf + 1; cnt = b.cnt + 1 }) room out r
        → Put m b (suc room) (ch ∷ out) r
    full {r} h = record {
      at = let q = h.at in omega arith;
      counted = let q = h.counted in omega arith;
      filled = record { chars = chars_at; others = kept };
    }
      where
        chars_at :
            (i : ℕ)
            → i < min (suc room) (suc (length out))
            → r.0 (b.buf + i) ≡ get_or (ch ∷ out) i 0 % 2 ^ 8
        chars_at zero less =
            let here : b.buf + 0 ≡ b.buf = omega arith in
            rw here (h.filled.others b.buf (inl (omega arith)) ∙ update_self m b.buf _)
        chars_at (suc i) less =
            let next : b.buf + suc i ≡ b.buf + 1 + i = omega arith in
            rw next (h.filled.chars i (omega arith))

        kept :
            (a : ℕ) → ((a < b.buf) ⊎ (b.buf + min (suc room) (suc (length out)) ≤ a)) → r.0 a ≡ m a
        kept a (inl x) =
            h.filled.others a (inl (omega arith))
            ∙ update_ne m b.buf _ a (==_ne b.buf a (λ q. omega (arith, q)))
        kept a (inr x) =
            h.filled.others a (inr (omega arith))
            ∙ update_ne m b.buf _ a (==_ne b.buf a (λ q. omega (arith, q)))

-- The characters `out`, cut to `room` bytes, and NUL are at `buf`, and no other byte changed.
pub record Printed (m m' : Bytes) (buf room : ℕ) (out : List ℕ) : Type 0 where
  pub chars : (i : ℕ) → i < min room (length out) → m' (buf + i) ≡ get_or out i 0 % 2 ^ 8
  pub ended : m' (buf + min room (length out)) ≡ 0
  pub others : (a : ℕ) → ((a < buf) ⊎ (buf + min room (length out) < a)) → m' a ≡ m a

Printed-update :
    (m m' : Bytes) (buf room last : ℕ) (out : List ℕ)
    → last ≡ buf + min room (length out)
    → Filled m m' buf room out
    → Printed m (update m' last 0) buf room out
Printed-update m m' buf room last out e f = rw e (record {
  chars = λ i less. update_ne m' _ 0 (buf + i) (==_ne _ _ (λ q. omega (arith, q))) ∙ f.chars i less;
  ended = update_self m' _ 0;
  others = λ a w. elim w [
    | inl x ↦ update_ne m' _ 0 a (==_ne _ _ (λ q. omega (arith, q))) ∙ f.others a (inl x)
    | inr x ↦
        update_ne m' _ 0 a (==_ne _ _ (λ q. omega (arith, q))) ∙ f.others a (inr (omega arith))
  ];
})

-- vsnprintf into a buffer of `room + 1` bytes, where vprintfmt puts the characters `out`: the result is
-- their number, however many fit; the buffer has them, cut to `room` bytes and ended by NUL; and no byte
-- outside the buffer changes.
pub vsnprintf_lem :
    (fuel : ℕ) (m : Bytes) (buf room : ℕ) (fmt : List ℕ) (args : List Arg) (out : List ℕ)
    → 0 < buf
    → vprintfmt fuel fmt args ≡ some out
    → (m' : Bytes) × (vsnprintf fuel m buf (room + 1) fmt args ≡ some (pos (length out), m'))
      × Printed m m' buf room out
unfolding vsnprintf
vsnprintf_lem fuel m buf room fmt args out there e =
    let empty : Sprintbuf = record { buf = buf; ebuf = buf + (room + 1) - 1; cnt = 0 } in
    let h = put_all-Put out m empty room (omega arith) in
    let r = put_all out (m, empty) in
    (
      update r.0 r.1.buf 0,
      rw (guard_off, e)
          (ap (λ (n : ℕ). some (pos n, update r.0 r.1.buf 0)) (h.counted ∙ omega arith)),
      Printed-update m r.0 buf room r.1.buf out h.at h.filled,
    )
  where
    guard_off : (buf == 0 || ltb (room + 1) 1) ≡ false
    guard_off = ground arith
