-- ===== src/User/Args/Flags.antt =====
-- The flags that argnext of lab/lib/args.c finds.
use mathlib.Core.Option
use adv_os_jos.Prelude.{
  ℕ, zero, suc, ◌+◌, ◌<◌, Option, none, some, List, [], ◌∷◌, ◌++◌, length, ◌==◌, if◌then◌else◌, ◌≡◌,
  refl, ap, arith, Bool-cases, inl, inr,
}
use adv_os_jos.User.Args.{Argstate, argstart, argnext, all_flags, with_flag}

-- The flags at the front of a list of arguments, and the arguments behind them: a flag argument is '-'
-- and at least one more byte; "--" ends them, and is dropped.
unfoldable pub flags_of : List (List ℕ) → List ℕ × List (List ℕ)
flags_of [] = ([], [])
flags_of ([] ∷ args) = ([], [] ∷ args)
flags_of ((c ∷ []) ∷ args) = ([], (c ∷ []) ∷ args)
flags_of ((c ∷ d ∷ []) ∷ args) =
    let more = flags_of args in
    if c == 45
    then (if d == 45 then ([], args) else (d ∷ more.0, more.1))
    else ([], (c ∷ d ∷ []) ∷ args)
flags_of ((c ∷ d ∷ e ∷ ds) ∷ args) =
    let more = flags_of args in
    if c == 45 then (d ∷ e ∷ ds ++ more.0, more.1) else ([], (c ∷ d ∷ e ∷ ds) ∷ args)

abbrev pub total : List (List ℕ) → ℕ
total [] = 0
total (a ∷ args) = length a + total args

-- where the flags are through
abbrev pub finished : List (List ℕ) → Argstate
finished argv = record { argv = argv; curarg = none; argvalue = none }

-- in the middle of an argument
abbrev within : List (List ℕ) → List ℕ → Option (List ℕ) → Argstate
within argv cs v = record { argv = argv; curarg = some cs; argvalue = v }

all_flags-within :
    (prog : List ℕ) (args : List (List ℕ)) (cs : List ℕ) (v : Option (List ℕ)) (fuel : ℕ)
    → length cs + total args < fuel
    → all_flags fuel (within (prog ∷ args) cs v)
      ≡ some (cs ++ (flags_of args).0, finished (prog ∷ (flags_of args).1))
unfolding all_flags argnext flags_of
all_flags-within prog args cs v zero enough = absurd (omega arith)
all_flags-within prog args (c ∷ cs) v (suc fuel) enough =
    rw (all_flags-within prog args cs none fuel (omega arith)) refl
all_flags-within prog [] [] v (suc fuel) enough = refl
all_flags-within prog ([] ∷ args) [] v (suc fuel) enough = refl
all_flags-within prog ((c ∷ []) ∷ args) [] v (suc fuel) enough = refl
all_flags-within prog ((c ∷ d ∷ []) ∷ args) [] v (suc fuel) enough = elim (Bool-cases (c == 45)) [
  | inr n ↦ rw n refl
  | inl t ↦ elim (Bool-cases (d == 45)) [
    | inl e ↦ rw (t, e) refl
    | inr e ↦
        rw (t, e)
          (ap (Option.map (with_flag d)) (all_flags-within prog args [] none fuel (omega arith)))
  ]
]
all_flags-within prog ((c ∷ d ∷ e ∷ ds) ∷ args) [] v (suc fuel) enough =
    elim (Bool-cases (c == 45)) [
      | inr n ↦ rw n refl
      | inl t ↦ rw t (
          ap (Option.map (with_flag d))
            (all_flags-within prog args (e ∷ ds) none fuel (omega arith)))
    ]

-- The loop of argnext on a command line, with more fuel than the arguments have bytes, ends: it gives the
-- flags at the front of the arguments, and leaves in argv the program and the arguments behind them.
pub all_flags-flags_of :
    (prog : List ℕ) (args : List (List ℕ)) (fuel : ℕ)
    → total args < fuel
    → all_flags fuel (argstart (prog ∷ args))
      ≡ some ((flags_of args).0, finished (prog ∷ (flags_of args).1))
unfolding argstart all_flags argnext flags_of
all_flags-flags_of prog args zero enough = absurd (omega arith)
all_flags-flags_of prog [] (suc fuel) enough = refl
all_flags-flags_of prog (a ∷ args) (suc fuel) enough =
    all_flags-within prog (a ∷ args) [] none (suc fuel) (omega arith)
