-- ===== src/User/Sh/Tests.antt =====
-- The theorem on tokens at one line.
use adv_os_jos.Prelude.{◌≡◌, refl, List, [], ◌∷◌, arith}
use adv_os_jos.User.Sh.{Token, symbol, word, gettoken_first}
use adv_os_jos.User.Sh.Print.{tokens, print, tokens-print}

-- `ls > f`
abbrev line : List Token
line = word (108 ∷ 115 ∷ []) ∷ symbol 62 ∷ word (102 ∷ []) ∷ []

tokens-print_example : tokens 4 (gettoken_first (print 32 line)) ≡ line
tokens-print_example =
    tokens-print 4 32 line ((refl, refl, (refl, refl, tt)), (refl, ((refl, refl, tt), tt))) refl
      (omega arith)
