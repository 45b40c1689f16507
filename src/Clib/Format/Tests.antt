-- ===== src/Clib/Format/Tests.antt =====
-- Runs of vprintfmt, and the theorems on it at one format.
use adv_os_jos.Prelude.{ℕ, ◌+◌, ◌-◌, ◌^◌, ◌≡◌, refl, true, some, List, [], ◌∷◌, length, pos, arith}
use adv_os_jos.Clib.Str.{Bytes}
use adv_os_jos.Clib.Format.{vprintfmt, vsnprintf, Arg, word, string}
use adv_os_jos.Clib.Format.Pieces.{Piece, plain, percent, text, numeral, signed, hexadecimal}
use adv_os_jos.Clib.Format.Buffer.{Printed, vsnprintf_lem}

-- "v%s: %05d%%"
abbrev pieces : List Piece
pieces =
    plain 118
    ∷ text (111 ∷ 107 ∷ [])
    ∷ plain 58
    ∷ plain 32
    ∷ numeral true (53 ∷ []) signed (2 ^ 32 - 42)
    ∷ percent
    ∷ []

-- "%5d" and "%x" of 42 and 255
run :
    vprintfmt 9 (37 ∷ 53 ∷ 100 ∷ 32 ∷ 37 ∷ 120 ∷ []) (word 42 ∷ word 255 ∷ [])
    ≡ some (32 ∷ 32 ∷ 32 ∷ 52 ∷ 50 ∷ 32 ∷ 102 ∷ 102 ∷ [])
unfolding vprintfmt adv_os_jos.Clib.Number.printnum
run = refl

-- A number with the flag '-' is padded with that character, on the left.
minus_run :
    vprintfmt 9 (37 ∷ 45 ∷ 53 ∷ 100 ∷ []) (word 42 ∷ []) ≡ some (45 ∷ 45 ∷ 45 ∷ 52 ∷ 50 ∷ [])
unfolding vprintfmt adv_os_jos.Clib.Number.printnum
minus_run = refl

-- "%s!" of "abcdef" cut to three bytes
abbrev zeros : Bytes
zeros a = 7

abbrev puts : List ℕ
puts = 97 ∷ 98 ∷ 99 ∷ 100 ∷ 101 ∷ 102 ∷ 33 ∷ []

string_run :
    vprintfmt 5 (37 ∷ 115 ∷ 33 ∷ []) (string (some (97 ∷ 98 ∷ 99 ∷ 100 ∷ 101 ∷ 102 ∷ [])) ∷ [])
    ≡ some puts
unfolding vprintfmt
string_run = refl

vsnprintf_example :
    (m' : Bytes) × (vsnprintf 5 zeros 100
        (3 + 1)
        (37 ∷ 115 ∷ 33 ∷ [])
        (string (some (97 ∷ 98 ∷ 99 ∷ 100 ∷ 101 ∷ 102 ∷ [])) ∷ [])
      ≡ some (pos (length puts), m'))
    × Printed zeros m' 100 3 puts
vsnprintf_example =
    vsnprintf_lem 5 zeros 100 3 (37 ∷ 115 ∷ 33 ∷ [])
      (string (some (97 ∷ 98 ∷ 99 ∷ 100 ∷ 101 ∷ 102 ∷ [])) ∷ []) puts (omega arith) string_run
