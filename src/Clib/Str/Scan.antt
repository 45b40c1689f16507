-- ===== src/Clib/Str/Scan.antt =====
-- strlen, strcmp and strchr of lab/lib/string.c on the strings as lists.
use adv_os_jos.Prelude.{
  ℕ, zero, suc, ◌+◌, ◌-◌, ◌<◌, ◌≡◌, ◌≢◌, ◌↔◌, refl, sym, ◌∙◌, ap, true, inl, inr, Option, none,
  some, List, [], ◌∷◌, ◌==◌, ==_ne, ==_iff, arith, Bool-cases, leb, leb→le, ap₂, length,
  if◌then◌else◌, ℤ, pos, sub_ℕ, ℕ_discrete,
}
use adv_os_jos.Clib.Str.{Bytes, strlen_from, strlen, strcmp, strchr}

-- At `s` there is the string `xs`, ended by NUL.
abbrev pub IsString : Bytes → ℕ → List ℕ → Type 0
IsString m s [] = m s ≡ 0
IsString m s (x ∷ xs) = (x ≢ 0) × (m s ≡ x) × IsString m (s + 1) xs

strlen_from_lem :
    (m : Bytes) (xs : List ℕ) (s n fuel : ℕ)
    → IsString m s xs
    → length xs < fuel
    → strlen_from fuel m s n ≡ some (n + length xs)
unfolding strlen_from
strlen_from_lem m [] s n zero h enough = absurd (omega arith)
strlen_from_lem m [] s n (suc fuel) h enough = rw h (ap some (omega arith))
strlen_from_lem m (x ∷ xs) s n zero h enough = absurd (omega arith)
strlen_from_lem m (x ∷ xs) s n (suc fuel) (ne, e, h) enough =
    rw (e, ==_ne x 0 ne)
      (strlen_from_lem m xs (s + 1) (n + 1) fuel h (omega arith) ∙ ap some (omega arith))

-- strlen of a string, with more fuel than it has bytes, is its length.
pub strlen_lem :
    (m : Bytes) (xs : List ℕ) (s fuel : ℕ)
    → IsString m s xs
    → length xs < fuel
    → strlen fuel m s ≡ some (length xs)
strlen_lem m xs s fuel h enough = strlen_from_lem m xs s 0 fuel h enough ∙ ap some (omega arith)

sub_ℕ_zero : (a b : ℕ) → (sub_ℕ a b ≡ pos 0) ↔ (a ≡ b)
sub_ℕ_zero a b = elim (Bool-cases (leb b a)) [
  | inl t ↦ rw t (
    λ h. let none_left : a - b ≡ 0 = cc h in omega (arith, none_left, leb→le b a t),
    λ h. ap pos (omega (arith, h)),
  )
  | inr t ↦ rw t ((λ h. absurd (cc h)), λ h. absurd (ground (arith, h)))
]

-- strcmp of two strings, with more fuel than the first has bytes, returns, and returns 0 exactly if
-- they are equal.
pub strcmp_lem :
    (m : Bytes) (xs ys : List ℕ) (p q fuel : ℕ)
    → IsString m p xs
    → IsString m q ys
    → length xs < fuel
    → (r : ℤ) × (strcmp fuel m p q ≡ some r) × ((r ≡ pos 0) ↔ (xs ≡ ys))
unfolding strcmp
strcmp_lem m xs ys p q zero hx hy enough = absurd (omega arith)
strcmp_lem m [] [] p q (suc fuel) hx hy enough = (pos 0, rw (hx, hy) refl, ((λ h. refl), λ h. refl))
strcmp_lem m [] (y ∷ ys) p q (suc fuel) hx (ne, e, hy) enough = (
  sub_ℕ 0 y,
  rw (hx, e) refl,
  ((λ h. absurd (ne (sym ((sub_ℕ_zero 0 y).0 h)))), λ h. absurd (cc h)),
)
strcmp_lem m (x ∷ xs) [] p q (suc fuel) (ne, e, hx) hy enough = (
  sub_ℕ x 0,
  rw (e, hy, ==_ne x 0 ne) refl,
  ((λ h. absurd (ne ((sub_ℕ_zero x 0).0 h))), λ h. absurd (cc h)),
)
strcmp_lem m (x ∷ xs) (y ∷ ys) p q (suc fuel) (ne, e, hx) (ne', e', hy) enough =
    elim (ℕ_discrete x y) [
      | yes same ↦
          let (r, runs, equal) = strcmp_lem m xs ys (p + 1) (q + 1) fuel hx hy (omega arith) in
          let test : (x == y) ≡ true = (==_iff x y).1 same in
          (
            r,
            rw (e, e', ==_ne x 0 ne, test) runs,
            ((λ h. ap₂ (λ (z : ℕ) (zs : List ℕ). z ∷ zs) same (equal.0 h)), λ h. equal.1 (cc h)),
          )
      | no differ ↦ (
        sub_ℕ x y,
        rw (e, e', ==_ne x 0 ne, ==_ne x y differ) refl,
        ((λ h. absurd (differ ((sub_ℕ_zero x y).0 h))), λ h. absurd (differ (cc h))),
      )
    ]

-- The first place of `c` in the string at `s`, if any.
abbrev pub first_at : (c : ℕ) → (s : ℕ) → List ℕ → Option ℕ
first_at c s [] = none
first_at c s (x ∷ xs) = if x == c then some s else first_at c (s + 1) xs

-- strchr of a string, with more fuel than it has bytes, returns the address of the first `c`, or
-- NULL where there is none.
pub strchr_lem :
    (m : Bytes) (xs : List ℕ) (s c fuel : ℕ)
    → IsString m s xs
    → length xs < fuel
    → strchr fuel m s c ≡ some (first_at c s xs)
unfolding strchr
strchr_lem m xs s c zero h enough = absurd (omega arith)
strchr_lem m [] s c (suc fuel) h enough = rw h refl
strchr_lem m (x ∷ xs) s c (suc fuel) (ne, e, h) enough = elim (Bool-cases (x == c)) [
  | inl t ↦ rw (e, ==_ne x 0 ne, t) refl
  | inr t ↦ rw (e, ==_ne x 0 ne, t) (strchr_lem m xs (s + 1) c fuel h (omega arith))
]
