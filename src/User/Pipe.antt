-- ===== src/User/Pipe.antt =====
-- The pipes of lab/lib/pipe.c: a buffer of 32 bytes that a reader and a writer share.
pub mod Content
pub mod Steps
pub mod Stream
use adv_os_jos.Prelude.{
  ℕ, zero, suc, ◌+◌, ◌-◌, ◌%◌, ◌^◌, Bool, true, false, Option, none, some, List, [], ◌∷◌, ◌++◌,
  ◌==◌, leb, ltb, update, if◌then◌else◌,
}

abbrev pub pipebufsiz : ℕ
pipebufsiz = 32

-- struct Pipe. The positions are the bit patterns of the two `off_t`.
pub record Pipe : Type 0 where
  pub p_rpos : ℕ
  pub p_wpos : ℕ
  pub p_buf : ℕ → ℕ

-- `p->p_rpos == p->p_wpos`
abbrev pub is_empty : Pipe → Bool
is_empty p = p.p_rpos == p.p_wpos

-- `p->p_wpos >= p->p_rpos + sizeof(p->p_buf)`, in size_t
abbrev pub is_full : Pipe → Bool
is_full p = leb ((p.p_rpos + pipebufsiz) % 2 ^ 32) p.p_wpos

-- `buf[i] = p->p_buf[p->p_rpos % PIPEBUFSIZ]; p->p_rpos++;`
abbrev pub next_byte : Pipe → ℕ
next_byte p = p.p_buf (p.p_rpos % pipebufsiz)

-- the increment of `p_rpos`
abbrev pub take_byte : Pipe → Pipe
take_byte p = record p { p_rpos = (p.p_rpos + 1) % 2 ^ 32 }

-- `p->p_buf[p->p_wpos % PIPEBUFSIZ] = buf[i];`
abbrev pub fill_byte : ℕ → Pipe → Pipe
fill_byte b p = record p { p_buf = update p.p_buf (p.p_wpos % pipebufsiz) b }

-- `p->p_wpos++;`
abbrev pub advance_wpos : Pipe → Pipe
advance_wpos p = record p { p_wpos = (p.p_wpos + 1) % 2 ^ 32 }

abbrev pub put_byte : ℕ → Pipe → Pipe
put_byte b p = advance_wpos (fill_byte b p)

-- Where a call stands when it stops: it returns, the bytes moved being `got` or counted by the
-- result; or it calls sys_yield and goes on later from the loop's head.
pub data Outcome : Type 0 where
  returned : ℕ → Outcome
  yielding : Outcome

-- The loop of devpipe_read on the rounds left: `n` of the `i + n` bytes are still wanted. The result
-- has the bytes read since, and the pipe. `closed` is what _pipeisclosed answers.
read_loop : ℕ → (closed : Bool) → (i : ℕ) → Pipe → Outcome × List ℕ × Pipe
read_loop zero closed i p = (returned i, [], p)
read_loop (suc n) closed i p =
    let (o, bytes, p') = read_loop n closed (i + 1) (take_byte p) in
    if is_empty p
    then (if ltb 0 i
        then (returned i, [], p)
        else if closed
        then (returned 0, [], p)
        else (yielding, [], p))
    else (o, next_byte p ∷ bytes, p')

unfoldable pub devpipe_read : (closed : Bool) → (n : ℕ) → Pipe → Outcome × List ℕ × Pipe
unfolding read_loop
devpipe_read closed n p = read_loop n closed 0 p

-- The loop of devpipe_write: the bytes left to write, of which a wait leaves some.
write_loop : List ℕ → (closed : Bool) → (i : ℕ) → Pipe → Outcome × List ℕ × Pipe
write_loop [] closed i p = (returned i, [], p)
write_loop (b ∷ bs) closed i p =
    let rest = write_loop bs closed (i + 1) (put_byte b p) in
    if is_full p then (if closed then (returned 0, b ∷ bs, p) else (yielding, b ∷ bs, p)) else rest

unfoldable pub devpipe_write : (closed : Bool) → List ℕ → Pipe → Outcome × List ℕ × Pipe
unfolding write_loop
devpipe_write closed buf p = write_loop buf closed 0 p
