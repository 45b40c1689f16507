-- ===== src/User/Args.antt =====
-- The argument parsing of lab/lib/args.c. `*argc` and `argv` are the list of the arguments, and a string
-- is its bytes before the NUL.
pub mod Flags
mod Tests
use mathlib.Core.Option
use adv_os_jos.Prelude.{
  ℕ, zero, suc, Bool, true, false, not, ◌&&◌, Option, none, some, List, [], ◌∷◌, ◌==◌,
  if◌then◌else◌, ℤ, pos, negsuc,
}

-- struct Argstate
pub record Argstate : Type 0 where
  pub argv : List (List ℕ)
  pub curarg : Option (List ℕ)
  pub argvalue : Option (List ℕ)

-- `(*argc > 1 && argv ? "" : 0)`, of an argv that is not null
abbrev pub first_curarg : List (List ℕ) → Option (List ℕ)
first_curarg [] = none
first_curarg (prog ∷ []) = none
first_curarg (prog ∷ arg ∷ args) = some []

unfoldable pub argstart : (argv : List (List ℕ)) → Argstate
argstart argv = record { argv = argv; curarg = first_curarg argv; argvalue = none }

abbrev pub endofargs : Argstate → ℤ × Argstate
endofargs s = (negsuc 0, record s { curarg = none })

-- A flag argument, whose '-' is passed, is taken out of argv.
abbrev pub shift_flags :
    Argstate → (prog : List ℕ) (args : List (List ℕ)) (d : ℕ) (ds : List ℕ) → ℤ × Argstate
shift_flags s prog args d [] =
    if d == 45
    then endofargs (record s { argv = prog ∷ args })
    else (pos d, record s { argv = prog ∷ args; curarg = some [] })
shift_flags s prog args d (e ∷ ds) =
    (pos d, record s { argv = prog ∷ args; curarg = some (e ∷ ds) })

-- The next argument.
abbrev pub next_argument : Argstate → (argv : List (List ℕ)) → ℤ × Argstate
next_argument s [] = endofargs s
next_argument s (prog ∷ []) = endofargs s
next_argument s (prog ∷ [] ∷ args) = endofargs s
next_argument s (prog ∷ (c ∷ []) ∷ args) = endofargs s
next_argument s (prog ∷ (c ∷ d ∷ ds) ∷ args) =
    if not (c == 45) then endofargs s else shift_flags s prog args d ds

abbrev pub next_flag : Argstate → (curarg : Option (List ℕ)) → ℤ × Argstate
next_flag s none = (negsuc 0, s)
next_flag s (some []) = next_argument s s.argv
next_flag s (some (c ∷ cs)) = (pos c, record s { curarg = some cs })

unfoldable pub argnext : Argstate → ℤ × Argstate
argnext s = next_flag (record s { argvalue = none }) s.curarg

-- The value in the next argument, if there is one.
abbrev pub value_argument : Argstate → (argv : List (List ℕ)) → Option (List ℕ) × Argstate
value_argument s [] = (none, record s { argvalue = none; curarg = none })
value_argument s (prog ∷ []) = (none, record s { argvalue = none; curarg = none })
value_argument s (prog ∷ arg ∷ args) =
    (some arg, record s { argvalue = some arg; argv = prog ∷ args })

abbrev pub value_of : Argstate → (curarg : Option (List ℕ)) → Option (List ℕ) × Argstate
value_of s none = (none, s)
value_of s (some []) = value_argument s s.argv
value_of s (some (c ∷ cs)) =
    (some (c ∷ cs), record s { argvalue = some (c ∷ cs); curarg = some [] })

unfoldable pub argnextvalue : Argstate → Option (List ℕ) × Argstate
argnextvalue s = value_of s s.curarg

unfoldable pub argvalue_of : Argstate → Option (List ℕ) × Argstate
unfolding argnextvalue
argvalue_of s = elim s.argvalue [ none ↦ argnextvalue s | some v ↦ (some v, s) ]

abbrev pub with_flag : ℕ → List ℕ × Argstate → List ℕ × Argstate
with_flag c (cs, s) = (c ∷ cs, s)

abbrev pub behind_flag :
    (Argstate → Option (List ℕ × Argstate)) → ℤ × Argstate → Option (List ℕ × Argstate)
behind_flag loop (negsuc n, s) = some ([], s)
behind_flag loop (pos c, s) = Option.map (with_flag c) (loop s)

-- `while ((i = argnext(&args)) >= 0)`: the flags, and the state behind them.
unfoldable pub all_flags : (fuel : ℕ) → Argstate → Option (List ℕ × Argstate)
unfolding argnext
all_flags zero s = none
all_flags (suc fuel) s = behind_flag (all_flags fuel) (argnext s)
