-- ===== src/User/Args/Tests.antt =====
-- The theorem on argnext at one command line.
use adv_os_jos.Prelude.{ℕ, ◌≡◌, refl, some, List, [], ◌∷◌, arith}
use adv_os_jos.User.Args.{argstart, all_flags}
use adv_os_jos.User.Args.Flags.{flags_of, finished, all_flags-flags_of}

-- "ls", "-lF", "-d", "dir"
abbrev arguments : List (List ℕ)
arguments = (45 ∷ 108 ∷ 70 ∷ []) ∷ (45 ∷ 100 ∷ []) ∷ (100 ∷ 105 ∷ 114 ∷ []) ∷ []

all_flags-flags_of_example :
    all_flags 20 (argstart ((108 ∷ 115 ∷ []) ∷ arguments))
    ≡ some ((flags_of arguments).0, finished ((108 ∷ 115 ∷ []) ∷ (flags_of arguments).1))
all_flags-flags_of_example = all_flags-flags_of (108 ∷ 115 ∷ []) arguments 20 (omega arith)

flags : flags_of arguments ≡ (108 ∷ 70 ∷ 100 ∷ [], (100 ∷ 105 ∷ 114 ∷ []) ∷ [])
unfolding flags_of
flags = refl
