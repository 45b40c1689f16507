-- ===== src/Kern/Debug/Tests.antt =====
-- Runs of stab_binsearch on the table that its comment shows.
use adv_os_jos.Prelude.{ℕ, ◌*◌, ◌-◌, ◌%◌, arith, ◌≡◌, refl, some, ◌==◌, if◌then◌else◌, pos, negsuc}
use adv_os_jos.Kern.Debug.{Stab, stab_binsearch}
use adv_os_jos.Kern.Debug.Round.{Is, Sorted}
use adv_os_jos.Kern.Debug.Bracket.{Contains, stab_binsearch-Contains}

abbrev stab_at : (type value : ℕ) → Stab
stab_at type value = record { n_strx = 0; n_type = type; n_other = 0; n_desc = 0; n_value = value }

abbrev table : ℕ → Stab
table i =
    if i == 0
    then stab_at 100 50
    else if i == 3
    then stab_at 100 60
    else if i == 5
    then stab_at 100 61
    else if i == 8
    then stab_at 100 90
    else stab_at 0 7

between : stab_binsearch table 100 30 0 10 70 ≡ some (pos 5, pos 7)
unfolding stab_binsearch adv_os_jos.Kern.Debug.is_type
between = refl

exact : stab_binsearch table 100 30 0 10 90 ≡ some (pos 8, pos 9)
unfolding stab_binsearch adv_os_jos.Kern.Debug.is_type
exact = refl

-- The address 60 is in the stab 3, but the stab at 61 is returned.
next_address : stab_binsearch table 100 30 0 10 60 ≡ some (pos 5, pos 7)
unfolding stab_binsearch adv_os_jos.Kern.Debug.is_type
next_address = refl

-- Below the first stab the region is not empty.
below_all : stab_binsearch table 100 30 0 10 40 ≡ some (negsuc 0, negsuc 0)
unfolding stab_binsearch adv_os_jos.Kern.Debug.is_type
below_all = refl

-- A table of functions, of the type 100, and of lines.
abbrev functions : ℕ → Stab
functions i = stab_at (if i % 2 == 0 then 100 else 68) (10 * i)

functions-Sorted : Sorted functions 100 0 9 45
functions-Sorted = record {
  ascending = λ i j x y z t u. omega arith;
  no_next = λ i x y t e. omega arith;
  in_words = omega arith;
}

Is-function : Is functions 100 2
unfolding adv_os_jos.Kern.Debug.is_type
Is-function = refl

stab_binsearch-Contains_example :
    (i j : ℕ) × (stab_binsearch functions 100 30 0 9 45 ≡ some (pos i, pos (j - 1)))
    × Contains functions 100 0 9 45 i j
stab_binsearch-Contains_example =
    stab_binsearch-Contains functions 100 0 9 45 functions-Sorted 30 2 (omega arith) (omega arith)
      Is-function (omega arith) (omega arith)
