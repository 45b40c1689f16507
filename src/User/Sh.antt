-- ===== src/User/Sh.antt =====
-- The tokens of lab/user/sh.c. A line is the list of its bytes before the NUL; the bytes that the
-- shell overwrites by NUL, to end a word, are cut off. A null pointer to the rest is the empty list.
pub mod Print
mod Tests
use adv_os_jos.Prelude.{
  ℕ, zero, suc, Bool, true, false, not, ◌&&◌, ◌||◌, List, [], ◌∷◌, ◌==◌, if◌then◌else◌,
}

-- strchr(WHITESPACE, c), strchr(SYMBOLS, c)
abbrev pub is_white : ℕ → Bool
is_white c = c == 32 || c == 9 || c == 13 || c == 10

abbrev pub is_symbol : ℕ → Bool
is_symbol c = c == 60 || c == 124 || c == 62 || c == 38 || c == 59 || c == 40 || c == 41

-- What _gettoken returns, with `*p1`: 0, a symbol, or 'w'.
pub data Token : Type 0 where
  eol : Token
  symbol : ℕ → Token
  word : List ℕ → Token

-- `while (strchr(WHITESPACE, *s))`
skip_white : List ℕ → List ℕ
skip_white [] = []
skip_white (c ∷ s) = let rest = skip_white s in if is_white c then rest else c ∷ s

-- `while (*s && !strchr(WHITESPACE SYMBOLS, *s))`: the bytes passed, and the rest.
word_part : List ℕ → List ℕ × List ℕ
word_part [] = ([], [])
word_part (c ∷ s) =
    let rest = word_part s in
    if is_white c || is_symbol c then ([], c ∷ s) else (c ∷ rest.0, rest.1)

-- _gettoken behind the white space.
token_at : List ℕ → Token × List ℕ
unfolding word_part
token_at [] = (eol, [])
token_at (c ∷ s) =
    if is_symbol c then (symbol c, s) else (word (word_part (c ∷ s)).0, (word_part (c ∷ s)).1)

-- _gettoken: the token and `*p2`.
unfoldable pub _gettoken : List ℕ → Token × List ℕ
unfolding skip_white token_at
_gettoken s = token_at (skip_white s)

-- The static variables of gettoken: `nc` with `np1`, and `np2`.
pub record Lexer : Type 0 where
  pub nc : Token
  pub np2 : List ℕ

abbrev pub lexer : Token × List ℕ → Lexer
lexer (t, rest) = record { nc = t; np2 = rest }

-- gettoken of a line, and of a null pointer.
unfoldable pub gettoken_first : List ℕ → Lexer
gettoken_first s = lexer (_gettoken s)

unfoldable pub gettoken : Lexer → Token × Lexer
gettoken l = (l.nc, lexer (_gettoken l.np2))
