-- ===== src/Prelude/Words.antt =====
-- Machine words as native numbers: single bits, masks and packed fields, at every position.
-- The bit of `x` at position `k` is `x / 2 ^ k % 2`, a form that the arithmetic tactics read.
use Prim.Native.Nat.{ℕ, zero, suc, ◌+◌, ◌-◌, ◌*◌, ◌/◌, ◌%◌, ◌^◌, ◌<◌, max, bit_and, bit_or}
use mathlib.Core.Path.{◌≡◌, refl, sym, ap, ap₂, ◌∙◌}
use mathlib.Core.WellFounded
use native.Mathlib.Nat.{
  pow-suc, one-le-pow, div-div-eq-div-mul, div-add-mod, div-one, mul-one, one-mul, mul_comm,
}
use native.Mathlib.Omega.{arith}
use adv_os_jos.Prelude.Order.{lt_wf}
use adv_os_jos.Prelude.Bits.{bit_or_digit, bit_and_digit}

-- Induction from the half of a number, for what is known digit by digit.
by_halves : (P : ℕ → Type 0) → P 0 → ((n : ℕ) → P (suc n / 2) → P (suc n)) → (n : ℕ) → P n
by_halves P base up n = WellFounded.induction lt_wf {C = P} n from_below
  where
    from_below : (x : ℕ) → ((y : ℕ) → y < x → P y) → P x
    from_below zero below = base
    from_below (suc x) below = up x (below (suc x / 2) (omega arith))

pub zero-bit_or : (y : ℕ) → bit_or 0 y ≡ y
zero-bit_or = by_halves (λ y. bit_or 0 y ≡ y) refl (λ y h. omega (arith, bit_or_digit 0 (suc y), h))

pub bit_or-zero : (x : ℕ) → bit_or x 0 ≡ x
bit_or-zero = by_halves (λ x. bit_or x 0 ≡ x) refl (λ x h. omega (arith, bit_or_digit (suc x) 0, h))

pub zero-bit_and : (x : ℕ) → bit_and 0 x ≡ 0
zero-bit_and =
    by_halves (λ x. bit_and 0 x ≡ 0) refl (λ x h. omega (arith, bit_and_digit 0 (suc x), h))

pub bit_and-zero : (x : ℕ) → bit_and x 0 ≡ 0
bit_and-zero =
    by_halves (λ x. bit_and x 0 ≡ 0) refl (λ x h. omega (arith, bit_and_digit (suc x) 0, h))

pub div-pow-suc : (k x : ℕ) → x / 2 ^ suc k ≡ x / 2 / 2 ^ k
div-pow-suc k x =
    ap (λ (m : ℕ). x / m) (pow-suc 2 k ∙ mul_comm (2 ^ k) 2) ∙ sym (div-div-eq-div-mul x 2 (2 ^ k))

pow-double : (k : ℕ) → 2 ^ suc k ≡ 2 * 2 ^ k
pow-double k = pow-suc 2 k ∙ mul_comm (2 ^ k) 2

mul-pow-double : (q k : ℕ) → q * 2 ^ suc k ≡ 2 * (q * 2 ^ k)
mul-pow-double q k = omega (arith, ap (λ (t : ℕ). q * t) (pow-suc 2 k))

bit_or-half : (x y : ℕ) → bit_or x y / 2 ≡ bit_or (x / 2) (y / 2)
bit_or-half x y = omega (arith, bit_or_digit x y)

-- Shifting right distributes over `|`.
pub bit_or-div : (k x y : ℕ) → bit_or x y / 2 ^ k ≡ bit_or (x / 2 ^ k) (y / 2 ^ k)
bit_or-div zero x y = rw (div-one, div-one, div-one)
bit_or-div (suc k) x y =
    rw (div-pow-suc k x, div-pow-suc k y, div-pow-suc k (bit_or x y), bit_or-half x y)
      (bit_or-div k (x / 2) (y / 2))

-- Each bit of `x | y` is set when one of the two is.
pub bit_of_or : (k x y : ℕ) → bit_or x y / 2 ^ k % 2 ≡ max (x / 2 ^ k % 2) (y / 2 ^ k % 2)
bit_of_or k x y = omega (arith, bit_or-div k x y, bit_or_digit (x / 2 ^ k) (y / 2 ^ k))

-- `|` of two words of `k` bits is a word of `k` bits.
pub bit_or-lt : (k x y : ℕ) → x < 2 ^ k → y < 2 ^ k → bit_or x y < 2 ^ k
bit_or-lt zero zero zero hx hy = omega arith
bit_or-lt zero zero (suc y) hx hy = absurd (omega arith)
bit_or-lt zero (suc x) y hx hy = absurd (omega arith)
bit_or-lt (suc k) x y hx hy = omega (
  arith,
  pow-double k,
  bit_or_digit x y,
  bit_or-lt k (x / 2) (y / 2) (omega (arith, pow-double k)) (omega (arith, pow-double k)),
)

-- `(q << k) | r` is a sum when `r` fits in the `k` low bits.
pub bit_or_packed : (k q r : ℕ) → r < 2 ^ k → bit_or (q * 2 ^ k) r ≡ q * 2 ^ k + r
bit_or_packed zero q zero fits = bit_or-zero (q * 1) ∙ omega arith
bit_or_packed zero q (suc r) fits = absurd (omega arith)
bit_or_packed (suc k) q r fits = omega (
  arith,
  mul-pow-double q k,
  pow-double k,
  bit_or_digit (q * 2 ^ suc k) r,
  ap (λ (t : ℕ). bit_or t (r / 2)) {x = q * 2 ^ suc k / 2} {y = q * 2 ^ k}
      (omega (arith, mul-pow-double q k)),
  bit_or_packed k q (r / 2) (omega (arith, pow-double k)),
)

-- A mask whose `k` low bits are clear.
pub bit_and_high : (k x q : ℕ) → bit_and x (q * 2 ^ k) ≡ bit_and (x / 2 ^ k) q * 2 ^ k
bit_and_high zero x q = rw (mul-one, mul-one, div-one)
bit_and_high (suc k) x q = omega (
  arith,
  mul-pow-double q k,
  mul-pow-double (bit_and (x / 2 ^ suc k) q) k,
  div-pow-suc k x,
  bit_and_digit x (q * 2 ^ suc k),
  ap (λ (t : ℕ). bit_and (x / 2) t) {x = q * 2 ^ suc k / 2} {y = q * 2 ^ k}
      (omega (arith, mul-pow-double q k)),
  ap (λ (t : ℕ). bit_and t q * 2 ^ k) (div-pow-suc k x),
  bit_and_high k (x / 2) q,
)

-- A mask of the `k` low bits is a remainder.
pub bit_and_low : (k x : ℕ) → bit_and x (2 ^ k - 1) ≡ x % 2 ^ k
bit_and_low zero x = bit_and-zero x ∙ omega arith
bit_and_low (suc k) x = omega (
  arith,
  pow-double k,
  one-le-pow k 2,
  bit_and_digit x (2 ^ suc k - 1),
  ap (λ (t : ℕ). bit_and (x / 2) t) {x = (2 ^ suc k - 1) / 2} {y = 2 ^ k - 1}
      (omega (arith, pow-double k)),
  bit_and_low k (x / 2),
  div-add-mod x (2 ^ suc k),
  div-add-mod (x / 2) (2 ^ k),
  ap₂ ◌*◌ (pow-double k) (div-pow-suc k x),
)

-- A mask of one bit reads that bit.
pub bit_and_bit : (k x : ℕ) → bit_and x (2 ^ k) ≡ x / 2 ^ k % 2 * 2 ^ k
bit_and_bit k x =
    rw one-mul at (bit_and_high k x 1) ∙ ap (λ (t : ℕ). t * 2 ^ k) (bit_and_low 1 (x / 2 ^ k))
