-- ===== src/Clib/Format/Figures.antt =====
-- The text of a number in a field, as printnum of lab/lib/printfmt.c puts it.
use adv_os_jos.Prelude.{
  ℕ, zero, suc, ◌+◌, ◌-◌, ◌*◌, ◌/◌, ◌%◌, ◌^◌, ◌<◌, ◌≤◌, ◌≡◌, refl, sym, ◌∙◌, ap, List, [], ◌∷◌,
  ◌++◌, replicate, length, length-append, append_assoc, leb, arith, Bool-cases, inl, inr,
}
use native.Mathlib.Nat.{mod-lt, div-lt_iff_lt-mul, div-add-mod', pow-zero, pow-suc}
use adv_os_jos.Clib.Number.{digit_char, printnum}
use adv_os_jos.Clib.Number.RoundTrip.{chars, digits_of, chars-append}

-- The digits in a field of `width` characters, behind the characters that fill it.
abbrev pub padded : (width padc : ℕ) → List ℕ → List ℕ
padded width padc ds = replicate (width - length ds) padc ++ chars ds

quotient_positive : (num base : ℕ) → 0 < base → base ≤ num → 0 < num / base
quotient_positive num base some_base le = positive (num / base) refl
  where
    positive : (q : ℕ) → num / base ≡ q → 0 < q
    positive zero e =
        let whole : 0 * base + num % base ≡ num =
          ap (λ (q : ℕ). q * base + num % base) (sym e) ∙ div-add-mod' num base in
        absurd (omega (arith, whole, mod-lt num some_base))
    positive (suc q) e = omega arith

-- printnum fills the field in front of the digits.
pub printnum-padded :
    (fuel num base width padc : ℕ)
    → 0 < base
    → num < base ^ fuel
    → 0 < num + fuel
    → printnum fuel num base width padc ≡ padded width padc (digits_of fuel num base)
unfolding printnum
printnum-padded zero num base width padc some_base enough some =
    absurd (omega (arith, pow-zero base, enough, some))
printnum-padded (suc fuel) num base width padc some_base enough some =
    elim (Bool-cases (leb base num)) [
      | inl t ↦
          let ds = digits_of fuel (num / base) base in
          let less : num / base < base ^ fuel =
            (div-lt_iff_lt-mul some_base).1 (rw (← pow-suc base fuel) enough) in
          let q : 0 < num / base = quotient_positive num base some_base (ground arith) in
          let room : width - length (ds ++ (num % base ∷ [])) ≡ width - 1 - length ds =
            omega (arith, length-append ds (num % base ∷ [])) in
          rw
            (
              t,
              printnum-padded fuel (num / base) base (width - 1) padc some_base less (omega arith),
            )
            (rw (room, chars-append ds (num % base ∷ []))
              (append_assoc (replicate (width - 1 - length ds) padc) (chars ds)
                (digit_char (num % base) ∷ [])))
      | inr t ↦ rw t refl
    ]
