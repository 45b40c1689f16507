-- ===== src/User/Sh/Print.antt =====
-- The tokens of a line that is written out from tokens, in lab/user/sh.c.
use adv_os_jos.Prelude.{
  ℕ, zero, suc, ◌<◌, ◌≡◌, refl, ◌∙◌, ap, Bool, true, false, List, [], ◌∷◌, ◌++◌, append_assoc,
  length, arith, if◌then◌else◌,
}
use adv_os_jos.User.Sh.{
  is_white, is_symbol, Token, eol, symbol, word, skip_white, word_part, token_at, _gettoken, Lexer,
  lexer, gettoken_first, gettoken,
}

-- Call gettoken until it returns 0, `n` times at most.
pub tokens : (n : ℕ) → Lexer → List Token
tokens zero l = []
tokens (suc n) l = elim (gettoken l).0 [
  | eol ↦ []
  | symbol c ↦ symbol c ∷ tokens n (gettoken l).1
  | word w ↦ word w ∷ tokens n (gettoken l).1
]

-- Each byte is neither white space nor a symbol.
abbrev pub Plain : List ℕ → Type 0
Plain [] = Unit
Plain (c ∷ w) = (is_white c ≡ false) × (is_symbol c ≡ false) × Plain w

abbrev pub IsToken : Token → Type 0
IsToken eol = ⊥
IsToken (symbol c) = is_symbol c ≡ true
IsToken (word []) = ⊥
IsToken (word (c ∷ w)) = Plain (c ∷ w)

abbrev pub AllTokens : List Token → Type 0
AllTokens [] = Unit
AllTokens (t ∷ ts) = IsToken t × AllTokens ts

-- A token, and one of white space.
abbrev pub print_token : (blank : ℕ) → Token → List ℕ
print_token blank eol = []
print_token blank (symbol c) = c ∷ blank ∷ []
print_token blank (word w) = w ++ (blank ∷ [])

abbrev pub print : (blank : ℕ) → List Token → List ℕ
print blank [] = []
print blank (t ∷ ts) = print_token blank t ++ print blank ts

symbol-white : (c : ℕ) → is_symbol c ≡ true → is_white c ≡ false
symbol-white c h = ground arith

word_part-Plain :
    (w : List ℕ) (blank : ℕ) (s : List ℕ)
    → Plain w
    → is_white blank ≡ true
    → word_part (w ++ (blank ∷ s)) ≡ (w, blank ∷ s)
unfolding word_part
word_part-Plain [] blank s plain white = rw white refl
word_part-Plain (c ∷ w) blank s (no_white, no_symbol, plain) white =
    rw (no_white, no_symbol)
      (ap (λ (r : List ℕ × List ℕ). (c ∷ r.0, r.1)) (word_part-Plain w blank s plain white))

-- The white space in front does not count.
_gettoken-white :
    (blank : ℕ) (s : List ℕ) → is_white blank ≡ true → _gettoken (blank ∷ s) ≡ _gettoken s
unfolding _gettoken skip_white
_gettoken-white blank s white =
    ap token_at {x = skip_white (blank ∷ s)} {y = skip_white s} (rw white refl)

_gettoken-token :
    (blank : ℕ) (t : Token) (s : List ℕ)
    → IsToken t
    → is_white blank ≡ true
    → _gettoken (print_token blank t ++ s) ≡ (t, blank ∷ s)
unfolding _gettoken skip_white token_at
_gettoken-token blank eol s h white = absurd h
_gettoken-token blank (symbol c) s h white = rw (symbol-white c h) (rw h refl)
_gettoken-token blank (word []) s h white = absurd h
_gettoken-token blank (word (c ∷ w)) s (no_white, no_symbol, plain) white =
    let r = (w ++ (blank ∷ [])) ++ s in
    let skip : skip_white (c ∷ r) ≡ c ∷ r = rw no_white refl in
    let same : c ∷ r ≡ (c ∷ w) ++ (blank ∷ s) =
      ap (λ (x : List ℕ). c ∷ x) (append_assoc w (blank ∷ []) s) in
    ap token_at skip
    ∙ ap
        (λ (b : Bool).
          if b then (symbol c, r) else (word (word_part (c ∷ r)).0, (word_part (c ∷ r)).1))
        no_symbol
    ∙ ap (λ (x : List ℕ × List ℕ). (word x.0, x.1))
        (ap word_part same ∙ word_part-Plain (c ∷ w) blank s (no_white, no_symbol, plain) white)

-- A call of gettoken where the line goes on with the token `t`.
tokens-cons :
    (n blank : ℕ) (t : Token) (s : List ℕ) (ts : List Token)
    → IsToken t
    → is_white blank ≡ true
    → tokens n (lexer (_gettoken s)) ≡ ts
    → tokens (suc n) (lexer (_gettoken (print_token blank t ++ s))) ≡ t ∷ ts
unfolding tokens gettoken
tokens-cons n blank t s ts h white rest =
    ap (λ (x : Token × List ℕ). tokens (suc n) (lexer x)) (_gettoken-token blank t s h white)
    ∙ after_token t h
  where
    follows : tokens n (lexer (_gettoken (blank ∷ s))) ≡ ts
    follows = ap (λ (x : Token × List ℕ). tokens n (lexer x)) (_gettoken-white blank s white) ∙ rest

    after_token : (t : Token) → IsToken t → tokens (suc n) (lexer (t, blank ∷ s)) ≡ t ∷ ts
    after_token eol h' = absurd h'
    after_token (symbol c) h' = ap (λ (xs : List Token). symbol c ∷ xs) follows
    after_token (word w) h' = ap (λ (xs : List Token). word w ∷ xs) follows

-- A line written out from words, of bytes that are neither white space nor symbols, and symbols, with
-- a byte of white space behind each: gettoken gives its tokens back, in order, and then 0.
pub tokens-print :
    (n blank : ℕ) (ts : List Token)
    → AllTokens ts
    → is_white blank ≡ true
    → length ts < n
    → tokens n (gettoken_first (print blank ts)) ≡ ts
unfolding tokens gettoken_first gettoken _gettoken skip_white token_at
tokens-print zero blank ts h white enough = absurd (omega arith)
tokens-print (suc n) blank [] h white enough = refl
tokens-print (suc n) blank (t ∷ ts) (h, hs) white enough =
    tokens-cons n blank t (print blank ts) ts h white
      (tokens-print n blank ts hs white (omega arith))
