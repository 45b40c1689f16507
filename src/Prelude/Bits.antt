-- ===== src/Prelude/Bits.antt =====
-- Facts about `bit_and` and `bit_or` at variables: the law of the lowest digit, and what follows
-- for masks and for fields packed in one word.
use Prim.Native.Nat.{
  ℕ, zero, suc, ◌+◌, ◌*◌, ◌/◌, ◌%◌, ◌≤◌, min, max, bit_and, bit_or, bitwise, digits,
}
use Prim.Native.Nat.{bit_and-bitwise, bit_or-bitwise}
use mathlib.Core.Path.{◌≡◌, refl}
use native.Mathlib.Omega.{arith}

-- The operations stand for a recursion on digits with fuel; enough fuel is enough.
module _ (rest : ℕ → ℕ) (op : ℕ → ℕ → ℕ) where
  digits_enough : (m n x y : ℕ) → x ≤ m → x ≤ n → digits rest op m x y ≡ digits rest op n x y
  digits_enough zero zero x y hm hn = refl
  digits_enough zero (suc n) zero y hm hn = refl
  digits_enough zero (suc n) (suc x) y hm hn = absurd (omega arith)
  digits_enough (suc m) zero zero y hm hn = refl
  digits_enough (suc m) zero (suc x) y hm hn = absurd (omega arith)
  digits_enough (suc m) (suc n) zero y hm hn = refl
  digits_enough (suc m) (suc n) (suc x) y hm hn =
      rw (digits_enough m n (suc x / 2) (y / 2) (omega arith) (omega arith))

  bitwise_of_pos :
      (x y : ℕ)
      → bitwise rest op (suc x) y ≡ bitwise rest op (suc x / 2) (y / 2) * 2 + op (suc x % 2) (y % 2)
  bitwise_of_pos x y =
      omega (arith, digits_enough x (suc x / 2) (suc x / 2) (y / 2) (omega arith) (omega arith))

-- The lowest digit of `x | y`, and the rest.
pub bit_or_digit : (x y : ℕ) → bit_or x y ≡ bit_or (x / 2) (y / 2) * 2 + max (x % 2) (y % 2)
bit_or_digit zero y = simp bit_or-bitwise (omega arith)
bit_or_digit (suc x) y = simp bit_or-bitwise (bitwise_of_pos (λ r. r) max x y)

-- The lowest digit of `x & y`, and the rest.
pub bit_and_digit : (x y : ℕ) → bit_and x y ≡ bit_and (x / 2) (y / 2) * 2 + min (x % 2) (y % 2)
bit_and_digit zero y = simp bit_and-bitwise (omega arith)
bit_and_digit (suc x) y = simp bit_and-bitwise (bitwise_of_pos (λ r. 0) min x y)
