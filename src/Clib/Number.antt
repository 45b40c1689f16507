-- ===== src/Clib/Number.antt =====
-- Numbers in lab/lib: printnum of printfmt.c and strtol of string.c.
pub mod RoundTrip
use adv_os_jos.Prelude.{
  ℕ, zero, suc, ◌+◌, ◌-◌, ◌*◌, ◌/◌, ◌%◌, ◌^◌, Bool, true, false, not, ◌&&◌, ◌||◌, Option, none,
  some, List, [], ◌∷◌, ◌++◌, replicate, ◌==◌, ltb, leb, if◌then◌else◌,
}
use adv_os_jos.Clib.Str.{Bytes}

-- "0123456789abcdef"[d]
abbrev pub digit_char : ℕ → ℕ
digit_char d = if ltb d 10 then 48 + d else 87 + d

-- The characters that printnum puts, with a level of recursion for each digit. A negative `width`
-- pads nothing, as 0 does.
unfoldable pub printnum : (fuel num base width padc : ℕ) → List ℕ
printnum zero num base width padc = []
printnum (suc fuel) num base width padc =
    let before = printnum fuel (num / base) base (width - 1) padc in
    (if leb base num then before else replicate (width - 1) padc) ++ (digit_char (num % base) ∷ [])

-- The digit that a character stands for.
abbrev pub digit : ℕ → Option ℕ
digit c =
    if leb 48 c && leb c 57
    then some (c - 48)
    else if leb 97 c && leb c 122
    then some (c - 97 + 10)
    else if leb 65 c && leb c 90
    then some (c - 65 + 10)
    else none

-- gobble initial whitespace
skip_blanks : (fuel : ℕ) → Bytes → (s : ℕ) → Option ℕ
skip_blanks zero m s = none
skip_blanks (suc fuel) m s =
    let rest = skip_blanks fuel m (s + 1) in if m s == 32 || m s == 9 then rest else some s

-- plus/minus sign
abbrev sign : Bytes → (s : ℕ) → ℕ × Bool
sign m s = if m s == 43 then (s + 1, false) else if m s == 45 then (s + 1, true) else (s, false)

-- hex or octal base prefix
abbrev prefix : Bytes → (s base : ℕ) → ℕ × ℕ
prefix m s base =
    if (base == 0 || base == 16) && (m s == 48 && m (s + 1) == 120)
    then (s + 2, 16)
    else if base == 0 && m s == 48
    then (s + 1, 8)
    else if base == 0
    then (s, 10)
    else (s, base)

-- digits
unfoldable pub digits_loop : (fuel : ℕ) → Bytes → (s base val : ℕ) → Option (ℕ × ℕ)
digits_loop zero m s base val = none
digits_loop (suc fuel) m s base val = elim (digit (m s)) [
  | none ↦ some (s, val)
  | some d ↦
      let rest = digits_loop fuel m (s + 1) base ((val * base + d) % 2 ^ 32) in
      if leb base d then some (s, val) else rest
]

-- the value with its sign, as a 32-bit word
abbrev signed : Bool → ℕ → ℕ
signed minus val = if minus then (2 ^ 32 - val) % 2 ^ 32 else val

after_blanks : (fuel : ℕ) → Bytes → (s base : ℕ) → Option (ℕ × ℕ)
after_blanks fuel m s base =
    let (s', minus) = sign m s in
    let (s'', base') = prefix m s' base in
    elim (digits_loop fuel m s'' base' 0) [
      | none ↦ none
      | some (end, val) ↦ some (end, signed minus val)
    ]

-- The result is `*endptr` and the value.
unfoldable pub strtol : (fuel : ℕ) → Bytes → (s base : ℕ) → Option (ℕ × ℕ)
unfolding skip_blanks after_blanks
strtol fuel m s base = elim (skip_blanks fuel m s) [
  | none ↦ none
  | some s' ↦ after_blanks fuel m s' base
]
