-- ===== src/Kern/Console/Tests.antt =====
-- The theorem on the console's input at one buffer.
use adv_os_jos.Prelude.{ℕ, zero, suc, ◌+◌, ◌<◌, ◌≡◌, ◌%◌, refl, true, get_or, [], ◌∷◌, arith}
use adv_os_jos.Kern.Console.{Cons, cons_getc}
use adv_os_jos.Kern.Console.Queue.{Holds, Taken, polled, cons_getc_lem}

-- A buffer about to wrap, with one character left.
abbrev buffer : Cons
buffer = record { buf = λ i. 97; rpos = 511; wpos = 0 }

one_left : Holds buffer (97 ∷ [])
one_left = record { room = omega arith; r_inside = omega arith; w_place = refl; at = one }
  where
    one : (i : ℕ) → i < 1 → buffer.buf ((511 + i) % 512) ≡ get_or (97 ∷ []) i 0
    one zero less = refl
    one (suc i) less = absurd (omega arith)

cons_getc_example :
    Taken
      (polled true (97 ∷ []) (98 ∷ 0 ∷ []) (99 ∷ []))
      (cons_getc true (98 ∷ 0 ∷ []) (99 ∷ []) buffer)
cons_getc_example =
    cons_getc_lem buffer true (97 ∷ []) (98 ∷ 0 ∷ []) (99 ∷ []) one_left (omega arith)
