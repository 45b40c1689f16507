-- ===== src/Kern/Console/Queue.antt =====
-- The input buffer of lab/kern/console.c as a queue.
use adv_os_jos.Prelude.{
  ℕ, zero, suc, ◌+◌, ◌%◌, ◌^◌, ◌<◌, ◌≡◌, inl, inr, refl, sym, ◌∙◌, ap, subst, Bool, true, false,
  Bool-cases, List, [], ◌∷◌, ◌++◌, append_assoc, append-nil, length, get_or, ◌==◌, ==_iff, ==_ne,
  arith, update, update_self, update_ne, if◌then◌else◌,
}
use adv_os_jos.Kern.Console.{
  Cons, consbufsize, wrapped, put_char, cons_intr, serial_intr, take_char, cons_getc,
}

-- The buffer holds the characters `xs`, the first next to be read.
pub record Holds (s : Cons) (xs : List ℕ) : Type 0 where
  pub room : length xs < consbufsize
  pub r_inside : s.rpos < consbufsize
  pub w_place : s.wpos ≡ (s.rpos + length xs) % consbufsize
  pub at : (i : ℕ) → i < length xs → s.buf ((s.rpos + i) % consbufsize) ≡ get_or xs i 0

length-snoc : (xs : List ℕ) (c : ℕ) → length (xs ++ (c ∷ [])) ≡ suc (length xs)
length-snoc [] c = refl
length-snoc (x ∷ xs) c = ap suc (length-snoc xs c)

get_or-before :
    (xs : List ℕ) (c i : ℕ) → i < length xs → get_or (xs ++ (c ∷ [])) i 0 ≡ get_or xs i 0
get_or-before [] c i less = absurd (omega arith)
get_or-before (x ∷ xs) c zero less = refl
get_or-before (x ∷ xs) c (suc i) less = get_or-before xs c i (omega arith)

get_or-last : (xs : List ℕ) (c : ℕ) → get_or (xs ++ (c ∷ [])) (length xs) 0 ≡ c
get_or-last [] c = refl
get_or-last (x ∷ xs) c = get_or-last xs c

wrapped_lem : (p : ℕ) → p < consbufsize → wrapped (p + 1) ≡ (p + 1) % consbufsize
wrapped_lem p less = elim (Bool-cases (p + 1 == consbufsize)) [
  | inl t ↦ let e : p + 1 ≡ consbufsize = (==_iff _ _).0 t in rw t (omega (arith, e))
  | inr t ↦ let e : p + 1 < consbufsize = ground arith in rw t (omega (arith, e))
]

Holds-put_char :
    (s : Cons) (xs : List ℕ) (c : ℕ)
    → Holds s xs
    → length xs + 1 < consbufsize
    → Holds (put_char c s) (xs ++ ((c % 2 ^ 8) ∷ []))
Holds-put_char s xs c h fits =
    let n : ℕ = length xs in
    let w : s.wpos < consbufsize = omega (arith, h.w_place) in
    let len : length (xs ++ ((c % 2 ^ 8) ∷ [])) ≡ suc n = length-snoc xs (c % 2 ^ 8) in
    record {
      room = rw len (omega (arith, fits));
      r_inside = h.r_inside;
      w_place = rw len (wrapped_lem s.wpos w ∙ omega (arith, h.w_place));
      at = λ i less.
          let below : i < suc n = rw len at less in
          elim (Bool-cases (i == n)) [
            | inl t ↦
                let e : i ≡ n = (==_iff i n).0 t in
                let place : (s.rpos + i) % consbufsize ≡ s.wpos =
                  ap (λ (x : ℕ). (s.rpos + x) % consbufsize) e ∙ sym h.w_place in
                ap (update s.buf s.wpos (c % 2 ^ 8)) place
                ∙ update_self s.buf s.wpos (c % 2 ^ 8)
                ∙ sym (get_or-last xs (c % 2 ^ 8))
                ∙ ap (λ (x : ℕ). get_or (xs ++ ((c % 2 ^ 8) ∷ [])) x 0) (sym e)
            | inr t ↦
                let less' : i < n = ground arith in
                let apart : (s.wpos == (s.rpos + i) % consbufsize) ≡ false =
                  ==_ne _ _ (λ e. omega (arith, e, h.w_place, less', h.room)) in
                update_ne s.buf s.wpos (c % 2 ^ 8) ((s.rpos + i) % consbufsize) apart
                ∙ h.at i less'
                ∙ sym (get_or-before xs (c % 2 ^ 8) i less')
          ];
    }

length-append : (ys zs : List ℕ) → length (ys ++ zs) ≡ length ys + length zs
length-append [] zs = omega arith
length-append (y ∷ ys) zs = omega (arith, length-append ys zs)

-- the bytes that are kept of the characters of a device
abbrev pub kept : List ℕ → List ℕ
kept [] = []
kept (c ∷ cs) = if c == 0 then kept cs else (c % 2 ^ 8) ∷ kept cs

Holds-cons_intr :
    (cs : List ℕ) (s : Cons) (xs : List ℕ)
    → Holds s xs
    → length (xs ++ kept cs) < consbufsize
    → Holds (cons_intr cs s) (xs ++ kept cs)
unfolding cons_intr
Holds-cons_intr [] s xs h fits = rw (append-nil xs) h
Holds-cons_intr (c ∷ cs) s xs h fits = elim (Bool-cases (c == 0)) [
  | inl t ↦ rw t (Holds-cons_intr cs s xs h (rw t at fits))
  | inr t ↦
      let fits' : length (xs ++ ((c % 2 ^ 8) ∷ kept cs)) < consbufsize = rw t at fits in
      let one_more : length xs + 1 < consbufsize =
        omega (arith, fits', length-append xs ((c % 2 ^ 8) ∷ kept cs)) in
      let shift = append_assoc xs ((c % 2 ^ 8) ∷ []) (kept cs) in
      rw t (
        subst (Holds (cons_intr cs (put_char c s))) shift (
          Holds-cons_intr cs (put_char c s) (xs ++ ((c % 2 ^ 8) ∷ []))
            (Holds-put_char s xs c h one_more)
            (subst (λ (ys : List ℕ). length ys < consbufsize) (sym shift) fits')))
]

-- What take_char gives of a buffer that holds `xs`: the first, or 0.
abbrev pub Taken : (xs : List ℕ) → ℕ × Cons → Type 0
Taken [] (c, s) = (c ≡ 0) × Holds s []
Taken (x ∷ xs) (c, s) = (c ≡ x) × Holds s xs

Taken-take_char : (s : Cons) (xs : List ℕ) → Holds s xs → Taken xs (take_char s)
Taken-take_char s [] h =
    let r : s.rpos < consbufsize = h.r_inside in
    let e : (s.rpos == s.wpos) ≡ true = ground (arith, h.w_place, r) in rw e (refl, h)
Taken-take_char s (x ∷ xs) h =
    let r : s.rpos < consbufsize = h.r_inside in
    let room : suc (length xs) < consbufsize = h.room in
    let place : s.wpos ≡ (s.rpos + suc (length xs)) % consbufsize = h.w_place in
    let e : (s.rpos == s.wpos) ≡ false = ==_ne _ _ (λ e. omega (arith, e, place, r, room)) in
    let next : wrapped (s.rpos + 1) ≡ (s.rpos + 1) % consbufsize = wrapped_lem s.rpos r in
    rw e (
      ap s.buf (omega arith) ∙ h.at 0 (omega arith),
      record {
        room = omega (arith, room);
        r_inside = rw next (omega arith);
        w_place = place ∙ rw next (omega arith);
        at = λ i less. ap s.buf (rw next (omega arith)) ∙ h.at (suc i) (omega (arith, less));
      },
    )

-- the bytes that the serial line adds, if there is one
abbrev pub heard : (serial_exists : Bool) → List ℕ → List ℕ
heard false cs = []
heard true cs = kept cs

Holds-serial_intr :
    (serial_exists : Bool) (cs : List ℕ) (s : Cons) (xs : List ℕ)
    → Holds s xs
    → length (xs ++ heard serial_exists cs) < consbufsize
    → Holds (serial_intr serial_exists cs s) (xs ++ heard serial_exists cs)
unfolding serial_intr
Holds-serial_intr true cs s xs h fits = Holds-cons_intr cs s xs h fits
Holds-serial_intr false cs s xs h fits = rw (append-nil xs) h

-- the queue after the two devices are polled
abbrev pub polled : (serial_exists : Bool) (xs serial kbd : List ℕ) → List ℕ
polled serial_exists xs serial kbd = (xs ++ heard serial_exists serial) ++ kept kbd

-- cons_getc on a buffer that holds `xs`, where what the serial line, if there is one, and the keyboard
-- have fits behind them in 511 bytes: it gives the first of `xs`, then the serial line's characters,
-- then the keyboard's, less the zeros, and the buffer holds the rest in this order; if there is none,
-- it gives 0.
pub cons_getc_lem :
    (s : Cons) (serial_exists : Bool) (xs serial kbd : List ℕ)
    → Holds s xs
    → length (polled serial_exists xs serial kbd) < consbufsize
    → Taken (polled serial_exists xs serial kbd) (cons_getc serial_exists serial kbd s)
unfolding cons_getc
cons_getc_lem s serial_exists xs serial kbd h fits =
    let first = xs ++ heard serial_exists serial in
    let h' =
      Holds-serial_intr serial_exists serial s xs h
        (omega (arith, fits, length-append first (kept kbd))) in
    Taken-take_char (cons_intr kbd (serial_intr serial_exists serial s)) (first ++ kept kbd)
      (Holds-cons_intr kbd (serial_intr serial_exists serial s) first h' fits)
