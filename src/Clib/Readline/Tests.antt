-- ===== src/Clib/Readline/Tests.antt =====
-- The theorem on readline at one line, and a run.
use adv_os_jos.Prelude.{◌≡◌, refl, List, [], ◌∷◌, ℤ, pos, arith}
use adv_os_jos.Clib.Readline.{Line, readline}
use adv_os_jos.Clib.Readline.Edit.{Shows, complete, unfinished, edit, readline-edit}

abbrev empty : Line
empty = record { buf = λ a. 0; i = 0 }

-- "ab", a backspace, "c" and a newline
abbrev keys : List ℤ
keys = pos 97 ∷ pos 98 ∷ pos 8 ∷ pos 99 ∷ pos 10 ∷ []

readline-edit_example : Shows (edit keys []) (readline keys empty)
readline-edit_example = readline-edit keys [] empty (omega arith) refl

edited_line : edit keys [] ≡ complete (99 ∷ 97 ∷ [])
unfolding edit
edited_line = refl

-- Delete in an empty line is put into it.
deleted : edit (pos 127 ∷ []) [] ≡ unfinished (127 ∷ [])
unfolding edit
deleted = refl
