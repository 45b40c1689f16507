-- ===== src/Clib/Readline.antt =====
-- readline of lab/lib/readline.c, less the prompt and the echo: what getchar returns is a list.
pub mod Edit
mod Tests
use adv_os_jos.Prelude.{
  ℕ, ◌+◌, ◌-◌, ◌%◌, ◌^◌, Bool, true, false, ◌&&◌, ◌||◌, List, [], ◌∷◌, ◌==◌, ltb, leb, update,
  if◌then◌else◌, ℤ, pos, negsuc,
}

abbrev pub buflen : ℕ
buflen = 1024

-- `buf` and `i`
pub record Line : Type 0 where
  pub buf : ℕ → ℕ
  pub i : ℕ

-- The line at its end; NULL, for an error of getchar; or a wait for a further character.
pub data Result : Type 0 where
  line : Line → Result
  null : Result
  waits : Line → Result

abbrev pub is_erase : ℕ → Bool
is_erase c = c == 8 || c == 127

abbrev pub is_end : ℕ → Bool
is_end c = c == 10 || c == 13

abbrev pub erase : Line → Line
erase l = record l { i = l.i - 1 }

abbrev pub append : (c : ℕ) → Line → Line
append c l = record { buf = update l.buf l.i (c % 2 ^ 8); i = l.i + 1 }

-- `buf[i] = 0`
abbrev pub end_line : Line → Line
end_line l = record l { buf = update l.buf l.i 0 }

-- The loop, from the characters typed so far.
unfoldable pub readline : List ℤ → Line → Result
readline [] l = waits l
readline (negsuc n ∷ cs) l = null
readline (pos c ∷ cs) l =
    let erased = readline cs (erase l) in
    let appended = readline cs (append c l) in
    let ignored = readline cs l in
    if is_erase c && ltb 0 l.i
    then erased
    else if leb 32 c && ltb l.i (buflen - 1)
    then appended
    else if is_end c
    then line (end_line l)
    else ignored
