-- ===== src/Clib/Number/RoundTrip.antt =====
-- What printnum prints, strtol reads.
use adv_os_jos.Prelude.{
  ℕ, zero, suc, ◌+◌, ◌*◌, ◌/◌, ◌%◌, ◌^◌, ◌<◌, ◌≤◌, ◌≡◌, refl, sym, ◌∙◌, subst, ap, ap₂, false, ◌&&◌,
  ◌||◌, inl, inr, some, List, [], ◌∷◌, ◌++◌, ◌==◌, leb, ltb, arith, Bool-cases, length,
  if◌then◌else◌,
}
use native.Mathlib.Nat.{
  mod-lt, mod-eq_of_lt, div-lt_iff_lt-mul, div-le_self, div-add-mod', pow-zero, pow-suc,
}
use adv_os_jos.Clib.Str.{Bytes}
use adv_os_jos.Clib.Str.Scan.{IsString}
use adv_os_jos.Clib.Number.{
  digit_char, printnum, digit, digits_loop, skip_blanks, strtol, after_blanks,
}

digit-digit_char : (d : ℕ) → d < 36 → digit (digit_char d) ≡ some d
digit-digit_char d lt = elim (Bool-cases (ltb d 10)) [
  | inl t ↦ rw t (ground arith)
  | inr t ↦ rw t (ground arith)
]

-- the characters of digits
abbrev pub chars : List ℕ → List ℕ
chars [] = []
chars (d ∷ ds) = digit_char d ∷ chars ds

-- the number that digits stand for, after `v`
abbrev pub value : (base v : ℕ) → List ℕ → ℕ
value base v [] = v
value base v (d ∷ ds) = value base ((v * base + d) % 2 ^ 32) ds

abbrev pub Below : ℕ → List ℕ → Type 0
Below base [] = Unit
Below base (d ∷ ds) = (d < base) × Below base ds

digits_loop_lem :
    (m : Bytes) (base : ℕ) (ds : List ℕ) (s v fuel : ℕ)
    → base ≤ 36
    → Below base ds
    → IsString m s (chars ds)
    → length ds < fuel
    → digits_loop fuel m s base v ≡ some (s + length ds, value base v ds)
unfolding digits_loop
digits_loop_lem m base ds s v zero small below h enough = absurd (omega arith)
digits_loop_lem m base [] s v (suc fuel) small below h enough =
    rw (digits_loop, h) (ap (λ (t : ℕ). some (t, v)) (omega arith))
digits_loop_lem m base (d ∷ ds) s v (suc fuel) small (lt, below) (ne, e, h) enough =
    let test : leb base d ≡ false = ground arith in
    let read : digit (m s) ≡ some d = ap digit e ∙ digit-digit_char d (omega arith) in
    rw (digits_loop, read, test)
      (digits_loop_lem m base ds (s + 1) ((v * base + d) % 2 ^ 32) fuel small below h (omega arith)
        ∙ ap (λ (t : ℕ). some (t, value base ((v * base + d) % 2 ^ 32) ds)) (omega arith))

-- the digits of a number
abbrev pub digits_of : (fuel num base : ℕ) → List ℕ
digits_of zero num base = []
digits_of (suc fuel) num base =
    (if leb base num then digits_of fuel (num / base) base else []) ++ (num % base ∷ [])

pub chars-append : (ds es : List ℕ) → chars (ds ++ es) ≡ chars ds ++ chars es
chars-append [] es = refl
chars-append (d ∷ ds) es = ap (λ (xs : List ℕ). digit_char d ∷ xs) (chars-append ds es)

Below-append :
    (base : ℕ) (ds : List ℕ) (d : ℕ) → Below base ds → d < base → Below base (ds ++ (d ∷ []))
Below-append base [] d below lt = (lt, tt)
Below-append base (e ∷ ds) d (lt', below) lt = (lt', Below-append base ds d below lt)

value-append :
    (base v : ℕ) (ds : List ℕ) (d : ℕ)
    → value base v (ds ++ (d ∷ [])) ≡ (value base v ds * base + d) % 2 ^ 32
value-append base v [] d = refl
value-append base v (e ∷ ds) d = value-append base ((v * base + e) % 2 ^ 32) ds d

-- printnum without a field width prints the digits.
printnum-chars :
    (fuel num base padc : ℕ) → printnum fuel num base 0 padc ≡ chars (digits_of fuel num base)
unfolding printnum
printnum-chars zero num base padc = refl
printnum-chars (suc fuel) num base padc = elim (Bool-cases (leb base num)) [
  | inl t ↦
      rw (t, printnum-chars fuel (num / base) base padc)
        (sym (chars-append (digits_of fuel (num / base) base) (num % base ∷ [])))
  | inr t ↦ rw t refl
]

digits_of-Below : (fuel num base : ℕ) → 0 < base → Below base (digits_of fuel num base)
digits_of-Below zero num base some_base = tt
digits_of-Below (suc fuel) num base some_base = elim (Bool-cases (leb base num)) [
  | inl t ↦ rw t (
      Below-append base _ (num % base) (digits_of-Below fuel (num / base) base some_base)
        (mod-lt num some_base))
  | inr t ↦ rw t (mod-lt num some_base, tt)
]

value-digits_of :
    (fuel num base : ℕ)
    → 0 < base
    → num < 2 ^ 32
    → num < base ^ fuel
    → value base 0 (digits_of fuel num base) ≡ num
value-digits_of zero num base some_base small enough = omega (arith, pow-zero base)
value-digits_of (suc fuel) num base some_base small enough = elim (Bool-cases (leb base num)) [
  | inl t ↦
      let less : num / base < base ^ fuel =
        (div-lt_iff_lt-mul some_base).1 (rw (← pow-suc base fuel) enough) in
      let before : value base 0 (digits_of fuel (num / base) base) ≡ num / base =
        value-digits_of fuel (num / base) base some_base (omega (arith, div-le_self num base))
          less in
      rw t (
        value-append base 0 (digits_of fuel (num / base) base) (num % base)
        ∙ rw (before, div-add-mod' num base) (omega arith))
  | inr t ↦
      let one_digit : num % base ≡ num = mod-eq_of_lt (ground arith) in
      rw (t, one_digit) (omega arith)
]

digits_of-cons :
    (fuel num base : ℕ) → (d : ℕ) × (ds : List ℕ) × (digits_of (suc fuel) num base ≡ d ∷ ds)
digits_of-cons fuel num base = cons (if leb base num then digits_of fuel (num / base) base else [])
  where
    cons : (xs : List ℕ) → (d : ℕ) × (ds : List ℕ) × (xs ++ (num % base ∷ []) ≡ d ∷ ds)
    cons [] = (num % base, [], refl)
    cons (x ∷ xs) = (x, xs ++ (num % base ∷ []), refl)

digit_char-range : (d : ℕ) → d < 16 → (48 ≤ digit_char d) × (digit_char d < 103)
digit_char-range d lt = ground arith

-- The second character of a number is not `x`.
second :
    (m : Bytes) (base d : ℕ) (ds : List ℕ) (s : ℕ)
    → base ≤ 16
    → Below base (d ∷ ds)
    → IsString m s (chars (d ∷ ds))
    → m (s + 1) < 103
second m base d [] s small below (ne, e, h) = rw h (omega arith)
second m base d (d' ∷ ds) s small (lt, (lt', below)) (ne, e, (ne', e', h)) =
    rw e' (digit_char-range d' (omega arith)).1

length-chars : (ds : List ℕ) → length (chars ds) ≡ length ds
length-chars [] = refl
length-chars (d ∷ ds) = ap suc (length-chars ds)

strtol-digits :
    (m : Bytes) (base d : ℕ) (ds : List ℕ) (s fuel : ℕ)
    → 0 < base
    → base ≤ 16
    → Below base (d ∷ ds)
    → IsString m s (chars (d ∷ ds))
    → length (d ∷ ds) < fuel
    → strtol fuel m s base ≡ some (s + length (d ∷ ds), value base 0 (d ∷ ds))
unfolding strtol
strtol-digits m base d ds s zero some_base small below h enough = absurd (omega arith)
strtol-digits m base d ds s (suc fuel) some_base small below h enough =
    let low : 48 ≤ m s = rw h.1 (digit_char-range d (omega (arith, below.0))).0 in
    let not_x : m (s + 1) < 103 = second m base d ds s small below h in
    let no_blank : (m s == 32 || m s == 9) ≡ false = ground arith in
    let no_plus : (m s == 43) ≡ false = ground arith in
    let no_minus : (m s == 45) ≡ false = ground arith in
    let no_hex : ((base == 0 || base == 16) && (m s == 48 && m (s + 1) == 120)) ≡ false =
      ground arith in
    let no_zero : (base == 0) ≡ false = ground arith in
    let skip : skip_blanks (suc fuel) m s ≡ some s = rw (skip_blanks, no_blank) refl in
    let read = digits_loop_lem m base (d ∷ ds) s 0 (suc fuel) (omega arith) below h enough in
    rw (strtol, skip, after_blanks, no_plus, no_minus, no_hex, no_zero, read)
      (rw (no_plus, no_minus) refl)

-- strtol reads what printnum prints: for a base from 2 to 16 and a number below 2 ^ 32 whose digits
-- are no more than the levels of recursion, if the printed characters are a string in memory, strtol
-- in that base, with more fuel than there are digits, gives the number, and its end is the string's.
pub strtol-printnum :
    (m : Bytes) (num base padc s levels fuel : ℕ)
    → 1 < base
    → base ≤ 16
    → num < 2 ^ 32
    → num < base ^ suc levels
    → IsString m s (printnum (suc levels) num base 0 padc)
    → length (printnum (suc levels) num base 0 padc) < fuel
    → strtol fuel m s base ≡ some (s + length (printnum (suc levels) num base 0 padc), num)
strtol-printnum m num base padc s levels fuel lo hi small enough h room =
    let (d, ds, e) = digits_of-cons levels num base in
    let printed : printnum (suc levels) num base 0 padc ≡ chars (d ∷ ds) =
      printnum-chars (suc levels) num base padc ∙ ap chars e in
    let below = subst (Below base) e (digits_of-Below (suc levels) num base (omega arith)) in
    let val : value base 0 (d ∷ ds) ≡ num =
      sym (ap (value base 0) e)
      ∙ value-digits_of (suc levels) num base (omega arith) small enough in
    let size : length (printnum (suc levels) num base 0 padc) ≡ length (d ∷ ds) =
      ap length printed ∙ length-chars (d ∷ ds) in
    strtol-digits m base d ds s fuel (omega arith) hi below (subst (IsString m s) printed h)
      (omega (arith, size))
    ∙ ap₂ (λ (x y : ℕ). some (s + x, y)) (sym size) val
