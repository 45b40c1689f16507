-- ===== src/Kern/Console.antt =====
-- The input buffer of lab/kern/console.c. What a device's routine returns before its -1 is the list
-- of the characters that it has.
pub mod Queue
mod Tests
use adv_os_jos.Prelude.{
  ℕ, ◌+◌, ◌%◌, ◌^◌, Bool, true, false, List, [], ◌∷◌, ◌==◌, update, if◌then◌else◌,
}

abbrev pub consbufsize : ℕ
consbufsize = 512

-- `cons`
pub record Cons : Type 0 where
  pub buf : ℕ → ℕ
  pub rpos : ℕ
  pub wpos : ℕ

-- A position moves on, and back to 0 at the end of the buffer.
abbrev pub wrapped : ℕ → ℕ
wrapped p = if p == consbufsize then 0 else p

abbrev pub put_char : (c : ℕ) → Cons → Cons
put_char c s = record s { buf = update s.buf s.wpos (c % 2 ^ 8); wpos = wrapped (s.wpos + 1) }

unfoldable pub cons_intr : List ℕ → Cons → Cons
cons_intr [] s = s
cons_intr (c ∷ cs) s = cons_intr cs (if c == 0 then s else put_char c s)

unfoldable pub serial_intr : (serial_exists : Bool) → List ℕ → Cons → Cons
serial_intr false cs s = s
serial_intr true cs s = cons_intr cs s

abbrev pub take_char : Cons → ℕ × Cons
take_char s =
    if s.rpos == s.wpos then (0, s) else (s.buf s.rpos, record s { rpos = wrapped (s.rpos + 1) })

-- cons_getc, with what the two devices have.
unfoldable pub cons_getc : (serial_exists : Bool) (serial kbd : List ℕ) → Cons → ℕ × Cons
unfolding cons_intr serial_intr
cons_getc serial_exists serial kbd s =
    take_char (cons_intr kbd (serial_intr serial_exists serial s))
