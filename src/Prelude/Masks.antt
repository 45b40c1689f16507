-- ===== src/Prelude/Masks.antt =====
-- Single bits of 32-bit words, set and cleared by a mask.
use Prim.Native.Nat.{ℕ, zero, suc, ◌-◌, ◌*◌, ◌/◌, ◌%◌, ◌^◌, ◌<◌, min, bit_and, bit_or}
use mathlib.Core.Path.{◌≡◌, refl}
use mathlib.Core.Logic.{inl, inr}
use mathlib.Core.Bool.{Bool, true, not, ◌&&◌, ◌||◌}
use native.Mathlib.Nat.{one-le-pow, div-one}
use native.Mathlib.Omega.{arith}
use adv_os_jos.Prelude.Bits.{bit_and_digit}
use adv_os_jos.Prelude.Words.{div-pow-suc, bit_of_or, bit_and_bit}
use adv_os_jos.Prelude.Tests.{◌==◌, ==_iff, if◌then◌else◌, Bool-cases}

bit_and-half : (x y : ℕ) → bit_and x y / 2 ≡ bit_and (x / 2) (y / 2)
bit_and-half x y = omega (arith, bit_and_digit x y)

bit_and-div : (k x y : ℕ) → bit_and x y / 2 ^ k ≡ bit_and (x / 2 ^ k) (y / 2 ^ k)
bit_and-div zero x y = rw (div-one, div-one, div-one)
bit_and-div (suc k) x y =
    rw (div-pow-suc k x, div-pow-suc k y, div-pow-suc k (bit_and x y), bit_and-half x y)
      (bit_and-div k (x / 2) (y / 2))

-- Each bit of `x & y` is set when both are.
pub bit_of_and : (k x y : ℕ) → bit_and x y / 2 ^ k % 2 ≡ min (x / 2 ^ k % 2) (y / 2 ^ k % 2)
bit_of_and k x y = omega (arith, bit_and-div k x y, bit_and_digit (x / 2 ^ k) (y / 2 ^ k))

-- a test that holds below a bound
all_below : ℕ → (ℕ → Bool) → Bool
all_below zero f = true
all_below (suc n) f = f n && all_below n f

all_below_lem : (n : ℕ) (f : ℕ → Bool) → all_below n f ≡ true → (i : ℕ) → i < n → f i ≡ true
unfolding all_below
all_below_lem zero f h i lt = absurd (omega arith)
all_below_lem (suc n) f h i lt = elim (Bool-cases (i == n)) [
  | inl t ↦ rw ((==_iff i n).0 t) (ground arith)
  | inr t ↦ all_below_lem n f (ground arith) i (ground arith)
]

-- the bit `j` of the mask of one bit `k`, and of its complement
abbrev bit_right : ℕ → ℕ → Bool
bit_right k j =
    (2 ^ k / 2 ^ j % 2 == (if k == j then 1 else 0))
    && ((2 ^ 32 - 1 - 2 ^ k) / 2 ^ j % 2 == (if k == j then 0 else 1))

bits_right : (k j : ℕ) → k < 32 → j < 32 → bit_right k j ≡ true
unfolding all_below
bits_right k j hk hj =
    all_below_lem 32 (bit_right k) (all_below_lem 32 (λ i. all_below 32 (bit_right i)) refl k hk) j
      hj

-- `word & (1 << k)` as a condition
abbrev pub is_set : ℕ → ℕ → Bool
is_set w k = not (bit_and w (2 ^ k) == 0)

is_set_bit : (w k : ℕ) → is_set w k ≡ (w / 2 ^ k % 2 == 1)
is_set_bit w k = rw (bit_and_bit k w) (by_bit (w / 2 ^ k % 2) (omega arith))
  where
    by_bit : (b : ℕ) → b < 2 → not (b * 2 ^ k == 0) ≡ (b == 1)
    by_bit zero lt = ground arith
    by_bit (suc zero) lt = ground (arith, one-le-pow k 2)
    by_bit (suc (suc b)) lt = absurd (omega arith)

-- `w |= 1 << k` sets the bit `k`.
pub is_set-bit_or :
    (w k j : ℕ) → k < 32 → j < 32 → is_set (bit_or w (2 ^ k)) j ≡ ((k == j) || is_set w j)
is_set-bit_or w k j hk hj =
    rw (is_set_bit w j, is_set_bit (bit_or w (2 ^ k)) j, bit_of_or j w (2 ^ k))
      (ground (arith, bits_right k j hk hj))

-- `w &= ~(1 << k)` clears the bit `k`.
pub is_set-bit_and :
    (w k j : ℕ)
    → k < 32
    → j < 32
    → is_set (bit_and w (2 ^ 32 - 1 - 2 ^ k)) j ≡ (not (k == j) && is_set w j)
is_set-bit_and w k j hk hj =
    rw
      (
        is_set_bit w j,
        is_set_bit (bit_and w (2 ^ 32 - 1 - 2 ^ k)) j,
        bit_of_and j w (2 ^ 32 - 1 - 2 ^ k),
      )
      (ground (arith, bits_right k j hk hj))
