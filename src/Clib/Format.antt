-- ===== src/Clib/Format.antt =====
-- vprintfmt and vsnprintf of lab/lib/printfmt.c. The arguments are a list of what va_arg reads; a string
-- is its bytes before the NUL. `none` is an argument of another type than the conversion reads, which C
-- leaves undefined, or a lack of fuel.
pub mod Pieces
pub mod Buffer
pub mod Figures
mod Tests
use mathlib.Core.Option
use adv_os_jos.Prelude.{
  ℕ, zero, suc, ◌+◌, ◌-◌, ◌*◌, ◌%◌, ◌^◌, Bool, true, false, not, ◌&&◌, ◌||◌, Option, none, some,
  List, [], ◌∷◌, ◌++◌, map, length, take, replicate, ◌==◌, ltb, leb, update, if◌then◌else◌, ℤ, pos,
  negsuc, neg, is_neg,
}
use adv_os_jos.Clib.Number.{printnum}
use adv_os_jos.Clib.Str.{Bytes}

pub data Arg : Type 0 where
  -- int, long or unsigned, as its 32 bits; long long, as its 64 bits
  word : ℕ → Arg
  long_long : ℕ → Arg
  -- a pointer to characters
  string : Option (List ℕ) → Arg

-- error_string
abbrev pub error_string : (err : ℕ) → Option (List ℕ)
error_string err =
    if err == 1
    then some (
        117 ∷ 110 ∷ 115 ∷ 112 ∷ 101 ∷ 99 ∷ 105 ∷ 102 ∷ 105 ∷ 101 ∷ 100 ∷ 32 ∷ 101 ∷ 114 ∷ 114 ∷ 111
        ∷ 114 ∷ [])
    else if err == 2
    then some
        (98 ∷ 97 ∷ 100 ∷ 32 ∷ 101 ∷ 110 ∷ 118 ∷ 105 ∷ 114 ∷ 111 ∷ 110 ∷ 109 ∷ 101 ∷ 110 ∷ 116 ∷ [])
    else if err == 3
    then some (
        105 ∷ 110 ∷ 118 ∷ 97 ∷ 108 ∷ 105 ∷ 100 ∷ 32 ∷ 112 ∷ 97 ∷ 114 ∷ 97 ∷ 109 ∷ 101 ∷ 116 ∷ 101
        ∷ 114 ∷ [])
    else if err == 4
    then some (111 ∷ 117 ∷ 116 ∷ 32 ∷ 111 ∷ 102 ∷ 32 ∷ 109 ∷ 101 ∷ 109 ∷ 111 ∷ 114 ∷ 121 ∷ [])
    else if err == 5
    then some (
        111 ∷ 117 ∷ 116 ∷ 32 ∷ 111 ∷ 102 ∷ 32 ∷ 101 ∷ 110 ∷ 118 ∷ 105 ∷ 114 ∷ 111 ∷ 110 ∷ 109 ∷ 101
        ∷ 110 ∷ 116 ∷ 115 ∷ [])
    else if err == 6
    then some (
        115 ∷ 101 ∷ 103 ∷ 109 ∷ 101 ∷ 110 ∷ 116 ∷ 97 ∷ 116 ∷ 105 ∷ 111 ∷ 110 ∷ 32 ∷ 102 ∷ 97 ∷ 117
        ∷ 108 ∷ 116 ∷ [])
    else if err == 7
    then some (
        101 ∷ 110 ∷ 118 ∷ 32 ∷ 105 ∷ 115 ∷ 32 ∷ 110 ∷ 111 ∷ 116 ∷ 32 ∷ 114 ∷ 101 ∷ 99 ∷ 118 ∷ 105
        ∷ 110 ∷ 103 ∷ [])
    else if err == 8
    then some (
        117 ∷ 110 ∷ 101 ∷ 120 ∷ 112 ∷ 101 ∷ 99 ∷ 116 ∷ 101 ∷ 100 ∷ 32 ∷ 101 ∷ 110 ∷ 100 ∷ 32 ∷ 111
        ∷ 102 ∷ 32 ∷ 102 ∷ 105 ∷ 108 ∷ 101 ∷ [])
    else if err == 9
    then some (
        110 ∷ 111 ∷ 32 ∷ 102 ∷ 114 ∷ 101 ∷ 101 ∷ 32 ∷ 115 ∷ 112 ∷ 97 ∷ 99 ∷ 101 ∷ 32 ∷ 111 ∷ 110
        ∷ 32 ∷ 100 ∷ 105 ∷ 115 ∷ 107 ∷ [])
    else if err == 10
    then some (
        116 ∷ 111 ∷ 111 ∷ 32 ∷ 109 ∷ 97 ∷ 110 ∷ 121 ∷ 32 ∷ 102 ∷ 105 ∷ 108 ∷ 101 ∷ 115 ∷ 32 ∷ 97
        ∷ 114 ∷ 101 ∷ 32 ∷ 111 ∷ 112 ∷ 101 ∷ 110 ∷ [])
    else if err == 11
    then some (
        102 ∷ 105 ∷ 108 ∷ 101 ∷ 32 ∷ 111 ∷ 114 ∷ 32 ∷ 98 ∷ 108 ∷ 111 ∷ 99 ∷ 107 ∷ 32 ∷ 110 ∷ 111
        ∷ 116 ∷ 32 ∷ 102 ∷ 111 ∷ 117 ∷ 110 ∷ 100 ∷ [])
    else if err == 12
    then some (105 ∷ 110 ∷ 118 ∷ 97 ∷ 108 ∷ 105 ∷ 100 ∷ 32 ∷ 112 ∷ 97 ∷ 116 ∷ 104 ∷ [])
    else if err == 13
    then some (
        102 ∷ 105 ∷ 108 ∷ 101 ∷ 32 ∷ 97 ∷ 108 ∷ 114 ∷ 101 ∷ 97 ∷ 100 ∷ 121 ∷ 32 ∷ 101 ∷ 120 ∷ 105
        ∷ 115 ∷ 116 ∷ 115 ∷ [])
    else if err == 14
    then some (
        102 ∷ 105 ∷ 108 ∷ 101 ∷ 32 ∷ 105 ∷ 115 ∷ 32 ∷ 110 ∷ 111 ∷ 116 ∷ 32 ∷ 97 ∷ 32 ∷ 118 ∷ 97
        ∷ 108 ∷ 105 ∷ 100 ∷ 32 ∷ 101 ∷ 120 ∷ 101 ∷ 99 ∷ 117 ∷ 116 ∷ 97 ∷ 98 ∷ 108 ∷ 101 ∷ [])
    else if err == 15
    then some (
        111 ∷ 112 ∷ 101 ∷ 114 ∷ 97 ∷ 116 ∷ 105 ∷ 111 ∷ 110 ∷ 32 ∷ 110 ∷ 111 ∷ 116 ∷ 32 ∷ 115 ∷ 117
        ∷ 112 ∷ 112 ∷ 111 ∷ 114 ∷ 116 ∷ 101 ∷ 100 ∷ [])
    else none

abbrev pub e_inval : ℕ
e_inval = 3

abbrev pub maxerror : ℕ
maxerror = 16

-- The variables of a conversion.
pub record Flags : Type 0 where
  pub padc : ℕ
  pub width : ℤ
  pub precision : ℤ
  pub lflag : ℕ
  pub altflag : Bool

abbrev pub default_flags : Flags
default_flags = record {
  padc = 32;
  width = negsuc 0;
  precision = negsuc 0;
  lflag = 0;
  altflag = false;
}

-- how often `while (... > 0)` runs
abbrev pub count : ℤ → ℕ
count (pos n) = n
count (negsuc n) = 0

-- an int by its 32 bits
abbrev pub int_of : ℕ → ℤ
int_of w = if ltb w (2 ^ 31) then pos w else neg (2 ^ 32 - w)

-- `process_precision`
abbrev pub process_precision : ℤ → Flags → Flags
process_precision p f =
    if is_neg f.width
    then record f { width = p; precision = negsuc 0 }
    else record f { precision = p }

abbrev pub is_digit : ℕ → Bool
is_digit c = leb 48 c && leb c 57

-- The digits of a width behind the first: the value, and the rest of the format.
unfoldable pub width_digits : (precision : ℕ) → List ℕ → ℕ × List ℕ
width_digits precision [] = (precision, [])
width_digits precision (c ∷ fmt) =
    let rest = width_digits (precision * 10 + (c - 48)) fmt in
    if is_digit c then rest else (precision, c ∷ fmt)

-- Levels of recursion of printnum: a long long has at most 22 digits in base 8.
abbrev pub levels : ℕ
levels = 64

abbrev pub number : Flags → (num base : ℕ) → List ℕ
number f num base = printnum levels num base (count f.width) f.padc

-- `%d`: the sign and the digits
abbrev pub signed_number : Flags → (bits num : ℕ) → List ℕ
signed_number f bits num =
    if leb (2 ^ (bits - 1)) num then 45 ∷ number f (2 ^ bits - num) 10 else number f num 10

abbrev pub shown_char : Bool → ℕ → ℕ
shown_char altflag ch = if altflag && (ltb ch 32 || ltb 126 ch) then 63 else ch

-- the characters that the precision lets through
abbrev pub cut : ℤ → List ℕ → List ℕ
cut (pos n) s = take n s
cut (negsuc n) s = s

-- `%s`
unfoldable pub put_string : Flags → List ℕ → List ℕ
put_string f s =
    let shown = cut f.precision s in
    let room = count f.width - length shown in
    if ltb 0 (count f.width) && not (f.padc == 45)
    then replicate room f.padc ++ map (shown_char f.altflag) shown
    else map (shown_char f.altflag) shown ++ replicate room 32

-- What a conversion puts, the rest of the format, and the arguments left.
abbrev pub Step : Type 0
Step = List ℕ × List ℕ × List Arg

-- getuint and a conversion of its value
abbrev pub unsigned_arg : Flags → (base : ℕ) → (fmt : List ℕ) → List Arg → Option Step
unsigned_arg f base fmt [] = none
unsigned_arg f base fmt (word n ∷ args) =
    if leb 2 f.lflag then none else some (number f n base, fmt, args)
unsigned_arg f base fmt (long_long n ∷ args) =
    if leb 2 f.lflag then some (number f n base, fmt, args) else none
unsigned_arg f base fmt (string s ∷ args) = none

-- getint, and `%d`
abbrev pub signed_arg : Flags → (fmt : List ℕ) → List Arg → Option Step
signed_arg f fmt [] = none
signed_arg f fmt (word n ∷ args) =
    if leb 2 f.lflag then none else some (signed_number f 32 n, fmt, args)
signed_arg f fmt (long_long n ∷ args) =
    if leb 2 f.lflag then some (signed_number f 64 n, fmt, args) else none
signed_arg f fmt (string s ∷ args) = none

-- a conversion of an int, long or pointer
abbrev pub word_arg : (ℕ → List ℕ) → (fmt : List ℕ) → List Arg → Option Step
word_arg put fmt [] = none
word_arg put fmt (word n ∷ args) = some (put n, fmt, args)
word_arg put fmt (long_long n ∷ args) = none
word_arg put fmt (string s ∷ args) = none

-- `%e`, of a number above -2^31
abbrev pub put_error : (n : ℕ) → List ℕ
put_error n =
    let err = if ltb n (2 ^ 31) then n else 2 ^ 32 - n in
    let unknown = 101 ∷ 114 ∷ 114 ∷ 111 ∷ 114 ∷ 32 ∷ signed_number default_flags 32 err in
    if leb maxerror err
    then unknown
    else elim (error_string err) [ none ↦ unknown | some s ↦ put_string default_flags s ]

-- "(null)" for a null pointer
abbrev pub string_or_null : Option (List ℕ) → List ℕ
string_or_null none = 40 ∷ 110 ∷ 117 ∷ 108 ∷ 108 ∷ 41 ∷ []
string_or_null (some s) = s

abbrev pub string_arg : Flags → (fmt : List ℕ) → List Arg → Option Step
string_arg f fmt [] = none
string_arg f fmt (word n ∷ args) = none
string_arg f fmt (long_long n ∷ args) = none
string_arg f fmt (string s ∷ args) = some (put_string f (string_or_null s), fmt, args)

-- the conversions that end the switch, with the default, which goes back to behind the '%'
unfoldable pub conversion :
    (start : List ℕ) → Flags → (ch : ℕ) → (fmt : List ℕ) → List Arg → Option Step
unfolding put_string
conversion start f ch fmt args =
    if ch == 99
    then word_arg (λ n. n % 2 ^ 8 ∷ []) fmt args
    else if ch == 101
    then word_arg put_error fmt args
    else if ch == 115
    then string_arg f fmt args
    else if ch == 100
    then signed_arg f fmt args
    else if ch == 117
    then unsigned_arg f 10 fmt args
    else if ch == 111
    then unsigned_arg f 8 fmt args
    else if ch == 112
    then word_arg (λ n. 48 ∷ 120 ∷ number f n 16) fmt args
    else if ch == 120
    then unsigned_arg f 16 fmt args
    else if ch == 37
    then some (37 ∷ [], fmt, args)
    else some (37 ∷ [], start, args)

-- The cases that set a flag and go on with the next character.
unfoldable pub flag_of : Flags → (ch : ℕ) → Option Flags
flag_of f ch =
    if ch == 45
    then some (record f { padc = 45 })
    else if ch == 48
    then some (record f { padc = 48 })
    else if ch == 46
    then some (if is_neg f.width then record f { width = pos 0 } else f)
    else if ch == 35
    then some (record f { altflag = true })
    else if ch == 108
    then some (record f { lflag = f.lflag + 1 })
    else none

-- The switch, from the character at the front of the format; `start` is the format behind the '%'.
unfoldable pub directive :
    (fuel : ℕ) (start : List ℕ) → Flags → (fmt : List ℕ) → List Arg → Option Step
unfolding flag_of width_digits conversion
directive zero start f fmt args = none
directive (suc fuel) start f [] args = some (37 ∷ [], start, args)
directive (suc fuel) start f (ch ∷ fmt) args = elim (flag_of f ch) [
  | some f' ↦ directive fuel start f' fmt args
  | none ↦ elim (is_digit ch) [
    | true ↦
        directive fuel start (process_precision (pos (width_digits (ch - 48) fmt).0) f)
          (width_digits (ch - 48) fmt).1 args
    | false ↦ elim (ch == 42) [
      | true ↦ elim args [
        | [] ↦ none
        | word n ∷ args' ↦ directive fuel start (process_precision (int_of n) f) fmt args'
        | long_long n ∷ args' ↦ none
        | string s ∷ args' ↦ none
      ]
      | false ↦ conversion start f ch fmt args
    ]
  ]
]

-- The characters that vprintfmt puts. A switch takes at most a round for each character of the format.
unfoldable pub vprintfmt : (fuel : ℕ) (fmt : List ℕ) → List Arg → Option (List ℕ)
unfolding directive
vprintfmt zero fmt args = none
vprintfmt (suc fuel) [] args = some []
vprintfmt (suc fuel) (ch ∷ fmt) args = elim (ch == 37) [
  | false ↦ Option.map (◌∷◌ ch) (vprintfmt fuel fmt args)
  | true ↦ elim (directive (suc (suc (suc (length fmt)))) fmt default_flags fmt args) [
    | none ↦ none
    | some (out, rest, args') ↦ Option.map (◌++◌ out) (vprintfmt fuel rest args')
  ]
]

-- struct sprintbuf
pub record Sprintbuf : Type 0 where
  pub buf : ℕ
  pub ebuf : ℕ
  pub cnt : ℕ

unfoldable pub sprintputch : (ch : ℕ) → Bytes × Sprintbuf → Bytes × Sprintbuf
sprintputch ch (m, b) =
    if ltb b.buf b.ebuf
    then (update m b.buf (ch % 2 ^ 8), record b { buf = b.buf + 1; cnt = b.cnt + 1 })
    else (m, record b { cnt = b.cnt + 1 })

-- the characters of a run of vprintfmt, one by one
unfoldable pub put_all : List ℕ → Bytes × Sprintbuf → Bytes × Sprintbuf
unfolding sprintputch
put_all [] s = s
put_all (ch ∷ out) s = put_all out (sprintputch ch s)

abbrev pub terminate : Bytes × Sprintbuf → ℤ × Bytes
terminate (m, b) = (pos b.cnt, update m b.buf 0)

-- vsnprintf; an `n` below 1 is 0.
unfoldable pub vsnprintf :
    (fuel : ℕ) → Bytes → (buf n : ℕ) (fmt : List ℕ) → List Arg → Option (ℤ × Bytes)
unfolding vprintfmt put_all
vsnprintf fuel m buf n fmt args =
    if buf == 0 || ltb n 1
    then some (neg e_inval, m)
    else Option.map
        (λ out. terminate (put_all out (m, record { buf = buf; ebuf = buf + n - 1; cnt = 0 })))
        (vprintfmt fuel fmt args)
