-- ===== src/Clib/Format/Pieces.antt =====
-- Formats as lists of pieces, and what vprintfmt of lab/lib/printfmt.c puts for them.
use adv_os_jos.Prelude.{
  ℕ, ◌+◌, ◌-◌, ◌*◌, ◌%◌, ◌^◌, ◌<◌, Bool, true, false, some, List, [], ◌∷◌, ◌++◌, leb, ◌≡◌, ◌==◌,
  if◌then◌else◌, pos, negsuc,
}
use adv_os_jos.Clib.Number.RoundTrip.{digits_of}
use adv_os_jos.Clib.Format.Figures.{padded}
use adv_os_jos.Clib.Format.{
  Arg, word, string, Flags, default_flags, is_digit, number, signed_number, put_string,
}

-- The conversions of a number.
pub data Radix : Type 0 where
  signed unsigned octal hexadecimal : Radix

abbrev pub letter : Radix → ℕ
letter signed = 100
letter unsigned = 117
letter octal = 111
letter hexadecimal = 120

-- A piece of a format: a character but '%', "%%", or a conversion with its argument. A number has a flag
-- for zeros, and the digits of a width.
pub data Piece : Type 0 where
  plain : ℕ → Piece
  percent : Piece
  char : ℕ → Piece
  text : List ℕ → Piece
  numeral : (zeros : Bool) (width : List ℕ) → Radix → ℕ → Piece

abbrev pub zero_flag : Bool → List ℕ → List ℕ
zero_flag true fmt = 48 ∷ fmt
zero_flag false fmt = fmt

-- The format of a piece, in front of `rest`.
abbrev pub written : Piece → (rest : List ℕ) → List ℕ
written (plain c) rest = c ∷ rest
written percent rest = 37 ∷ 37 ∷ rest
written (char c) rest = 37 ∷ 99 ∷ rest
written (text s) rest = 37 ∷ 115 ∷ rest
written (numeral zeros width r n) rest = 37 ∷ zero_flag zeros (width ++ letter r ∷ rest)

abbrev pub argument : Piece → List Arg → List Arg
argument (plain c) args = args
argument percent args = args
argument (char c) args = word c ∷ args
argument (text s) args = string (some s) ∷ args
argument (numeral zeros width r n) args = word n ∷ args

-- the value of decimal digits behind `v`
unfoldable pub decimal : (v : ℕ) → List ℕ → ℕ
decimal v [] = v
decimal v (c ∷ cs) = decimal (v * 10 + (c - 48)) cs

abbrev pub field : (zeros : Bool) (width : List ℕ) → Flags
field zeros width = record {
  padc = if zeros then 48 else 32;
  width = elim width [ [] ↦ negsuc 0 | c ∷ cs ↦ pos (decimal (c - 48) cs) ];
  precision = negsuc 0;
  lflag = 0;
  altflag = false;
}

abbrev pub converted : Radix → Flags → ℕ → List ℕ
converted signed f n = signed_number f 32 n
converted unsigned f n = number f n 10
converted octal f n = number f n 8
converted hexadecimal f n = number f n 16

-- what the conversion of a piece puts
abbrev put : Piece → List ℕ
put (plain c) = c ∷ []
put percent = 37 ∷ []
put (char c) = c % 2 ^ 8 ∷ []
put (text s) = put_string default_flags s
put (numeral zeros width r n) = converted r (field zeros width) n

abbrev pub base_of : Radix → ℕ
base_of signed = 10
base_of unsigned = 10
base_of octal = 8
base_of hexadecimal = 16

abbrev pub width_of : List ℕ → ℕ
width_of [] = 0
width_of (c ∷ cs) = decimal (c - 48) cs

-- the digits of a number in its field, filled with zeros or with blanks
abbrev pub figure : (zeros : Bool) (width : List ℕ) (base n : ℕ) → List ℕ
figure zeros width base n = padded (width_of width) (if zeros then 48 else 32) (digits_of 64 n base)

-- A number of 32 bits: a signed one of the upper half is negative, and has its '-' before the field.
abbrev pub figures : (zeros : Bool) (width : List ℕ) → Radix → ℕ → List ℕ
figures zeros width signed n =
    if leb (2 ^ 31) n then 45 ∷ figure zeros width 10 (2 ^ 32 - n) else figure zeros width 10 n
figures zeros width unsigned n = figure zeros width 10 n
figures zeros width octal n = figure zeros width 8 n
figures zeros width hexadecimal n = figure zeros width 16 n

-- What a piece stands for: a character; a string, as it is; the digits of a number in its field.
abbrev pub shown : Piece → List ℕ
shown (plain c) = c ∷ []
shown percent = 37 ∷ []
shown (char c) = c % 2 ^ 8 ∷ []
shown (text s) = s
shown (numeral zeros width r n) = figures zeros width r n

abbrev pub format_of : List Piece → List ℕ
format_of [] = []
format_of (p ∷ ps) = written p (format_of ps)

abbrev pub args_of : List Piece → List Arg
args_of [] = []
args_of (p ∷ ps) = argument p (args_of ps)

abbrev pub shown_all : List Piece → List ℕ
shown_all [] = []
shown_all (p ∷ ps) = shown p ++ shown_all ps

-- The characters are digits.
abbrev pub Digits : List ℕ → Type 0
Digits [] = Unit
Digits (c ∷ cs) = (is_digit c ≡ true) × Digits cs

-- A character of its own is no '%', a number has 32 bits, and a width begins with a digit other than 0.
abbrev pub IsPiece : Piece → Type 0
IsPiece (plain c) = (c == 37) ≡ false
IsPiece percent = Unit
IsPiece (char c) = Unit
IsPiece (text s) = Unit
IsPiece (numeral zeros [] r n) = n < 2 ^ 32
IsPiece (numeral zeros (c ∷ cs) r n) = (48 < c) × (is_digit c ≡ true) × Digits cs × (n < 2 ^ 32)

abbrev pub ArePieces : List Piece → Type 0
ArePieces [] = Unit
ArePieces (p ∷ ps) = IsPiece p × ArePieces ps
