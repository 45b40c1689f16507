-- ===== src/Clib/Tests.antt =====
-- The theorems on strings and numbers at one memory.
use adv_os_jos.Prelude.{ℕ, ◌+◌, ◌≡◌, refl, some, List, [], ◌∷◌, length, arith, get_or}
use adv_os_jos.Clib.Str.{Bytes}
use adv_os_jos.Clib.Str.Scan.{IsString}
use adv_os_jos.Clib.Number.{printnum, strtol}
use adv_os_jos.Clib.Number.RoundTrip.{strtol-printnum}

-- "407" at 0, and "40" at 4.
abbrev memory : Bytes
memory a = get_or (52 ∷ 48 ∷ 55 ∷ 0 ∷ 52 ∷ 48 ∷ []) a 0

abbrev digits_407 : List ℕ
digits_407 = 52 ∷ 48 ∷ 55 ∷ []

abbrev digits_40 : List ℕ
digits_40 = 52 ∷ 48 ∷ []

long : IsString memory 0 digits_407
long = (
  (λ e. omega (arith, e)),
  refl,
  ((λ e. omega (arith, e)), refl, ((λ e. omega (arith, e)), refl, refl)),
)

short : IsString memory 4 digits_40
short = ((λ e. omega (arith, e)), refl, ((λ e. omega (arith, e)), refl, refl))

printed : printnum 3 407 10 0 32 ≡ digits_407
unfolding printnum
printed = refl

strtol-printnum_example : strtol 4 memory 0 10 ≡ some (0 + length (printnum 3 407 10 0 32), 407)
strtol-printnum_example =
    strtol-printnum memory 407 10 32 0 2 4 (omega arith) (omega arith) (omega arith) (omega arith)
      (rw printed long) (rw printed (omega arith))
