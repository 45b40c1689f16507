-- ===== src/Clib/Readline/Edit.antt =====
-- readline of lab/lib/readline.c as an editor of a list of characters.
use adv_os_jos.Prelude.{
  ℕ, suc, ◌-◌, ◌%◌, ◌^◌, ◌<◌, ◌≤◌, true, false, ◌&&◌, ◌||◌, List, [], ◌∷◌, length, ==_ne, ltb, leb,
  update, update_self, update_ne, if◌then◌else◌, ℤ, pos, negsuc, ◌≡◌, ◌∙◌, Bool-cases, inl, inr,
  arith,
}
use adv_os_jos.Clib.Readline.{
  Line, Result, line, null, waits, buflen, is_erase, is_end, erase, append, end_line, readline,
}

-- What was typed, the last character first: a line that is complete, or NULL, or one that goes on.
pub data Typed : Type 0 where
  complete : List ℕ → Typed
  failed : Typed
  unfinished : List ℕ → Typed

-- A character in the line: backspace and delete take the last one back, where there is one; printable
-- characters are put at the end while there is room.
abbrev pub edited : (c : ℕ) → List ℕ → List ℕ
edited c [] = if leb 32 c then c % 2 ^ 8 ∷ [] else []
edited c (x ∷ xs) =
    if is_erase c
    then xs
    else if leb 32 c && ltb (suc (length xs)) (buflen - 1)
    then c % 2 ^ 8 ∷ x ∷ xs
    else x ∷ xs

-- the editor
unfoldable pub edit : List ℤ → List ℕ → Typed
edit [] xs = unfinished xs
edit (negsuc n ∷ cs) xs = failed
edit (pos c ∷ cs) xs = let rest = edit cs (edited c xs) in if is_end c then complete xs else rest

-- The buffer has the characters of `xs`, the last of which is its first.
abbrev pub Content : List ℕ → Line → Type 0
Content [] l = l.i ≡ 0
Content (x ∷ xs) l =
    (l.i ≡ suc (length xs)) × (l.buf (length xs) ≡ x) × Content xs (record l { i = length xs })

-- The result is the string of what was typed, or a buffer that holds it.
abbrev pub Shows : Typed → Result → Type 0
Shows (complete xs) (line l) = Content xs l × (l.buf l.i ≡ 0)
Shows (unfinished xs) (waits l) = Content xs l
Shows failed null = Unit
Shows _ _ = ⊥

Content-length : (xs : List ℕ) (l : Line) → Content xs l → l.i ≡ length xs
Content-length [] l c = c
Content-length (x ∷ xs) l c = c.0

-- A write behind the content.
Content-update :
    (xs : List ℕ) (l : Line) (at v : ℕ)
    → l.i ≤ at
    → Content xs l
    → Content xs (record l { buf = update l.buf at v })
Content-update [] l at v le c = c
Content-update (x ∷ xs) l at v le (e, b, c) = (
  e,
  update_ne l.buf at v (length xs) (==_ne _ _ (λ q. omega (arith, q))) ∙ b,
  Content-update xs (record l { i = length xs }) at v (omega arith) c,
)

Content-append :
    (xs : List ℕ) (l : Line) (c : ℕ) → Content xs l → Content (c % 2 ^ 8 ∷ xs) (append c l)
Content-append xs l c h =
    let e : l.i ≡ length xs = Content-length xs l h in
    (
      omega (arith, e),
      rw (← e) (update_self l.buf l.i _),
      rw (← e) (Content-update xs l l.i (c % 2 ^ 8) (omega arith) h),
    )

Content-erase : (x : ℕ) (xs : List ℕ) (l : Line) → Content (x ∷ xs) l → Content xs (erase l)
Content-erase x xs l (e, b, c) = let i : l.i - 1 ≡ length xs = omega (arith, e) in rw i c

Content-end_line : (xs : List ℕ) (l : Line) → Content xs l → Shows (complete xs) (line (end_line l))
Content-end_line xs l c = (Content-update xs l l.i 0 (omega arith) c, update_self l.buf l.i 0)

not_end : (c : ℕ) → (is_erase c || leb 32 c) ≡ true → is_end c ≡ false
not_end c h = ground (arith, h)

-- readline, from a buffer that holds `xs`, of fewer than 1024 characters, on whatever is typed: it does
-- what the editor does of it. A line that is complete stands in the buffer, ended by NUL; an error of
-- getchar gives NULL; and a line that is not at its end is in the buffer as far as it goes.
pub readline-edit :
    (cs : List ℤ) (xs : List ℕ) (l : Line)
    → length xs < buflen
    → Content xs l
    → Shows (edit cs xs) (readline cs l)
unfolding readline edit
readline-edit [] xs l room c = c
readline-edit (negsuc n ∷ cs) xs l room c = tt
readline-edit (pos ch ∷ cs) [] l room c =
    let none_to_erase : (is_erase ch && ltb 0 l.i) ≡ false = ground (arith, c) in
    let fits : ltb l.i (buflen - 1) ≡ true = ground (arith, c) in
    elim (Bool-cases (leb 32 ch)) [
      | inl t ↦
          rw (not_end ch (ground (arith, t)), t, none_to_erase, fits)
            (readline-edit cs (ch % 2 ^ 8 ∷ []) (append ch l) (omega arith)
              (Content-append [] l ch c))
      | inr t ↦ elim (Bool-cases (is_end ch)) [
        | inl n ↦ rw (none_to_erase, t, n) (Content-end_line [] l c)
        | inr n ↦ rw (none_to_erase, t, n) (readline-edit cs [] l room c)
      ]
    ]
readline-edit (pos ch ∷ cs) (x ∷ xs) l room c =
    let at : l.i ≡ suc (length xs) = c.0 in
    let some_to_erase : ltb 0 l.i ≡ true = ground (arith, at) in
    elim (Bool-cases (is_erase ch)) [
      | inl t ↦
          rw (not_end ch (ground (arith, t)), t, some_to_erase)
            (readline-edit cs xs (erase l) (omega (arith, room)) (Content-erase x xs l c))
      | inr t ↦ elim (Bool-cases (leb 32 ch && ltb (suc (length xs)) (buflen - 1))) [
        | inl p ↦
            let p' : (leb 32 ch && ltb l.i (buflen - 1)) ≡ true = rw at p in
            rw (not_end ch (ground (arith, p)), t, p, p')
              (readline-edit cs (ch % 2 ^ 8 ∷ x ∷ xs) (append ch l) (ground (arith, p))
                (Content-append (x ∷ xs) l ch c))
        | inr p ↦
            let p' : (leb 32 ch && ltb l.i (buflen - 1)) ≡ false = rw at p in
            elim (Bool-cases (is_end ch)) [
              | inl n ↦ rw (t, p, p', n) (Content-end_line (x ∷ xs) l c)
              | inr n ↦ rw (t, p, p', n) (readline-edit cs (x ∷ xs) l room c)
            ]
      ]
    ]
