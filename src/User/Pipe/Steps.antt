-- ===== src/User/Pipe/Steps.antt =====
-- A reader and a writer of a pipe of lab/lib/pipe.c that interleave between the accesses of their
-- loops.
use adv_os_jos.Prelude.{
  ℕ, suc, ◌+◌, ◌-◌, ◌%◌, ◌^◌, ◌<◌, ◌≡◌, refl, sym, ◌∙◌, ap, ap₂, false, List, [], ◌∷◌, ◌++◌, arith,
  length, length-append, append_assoc, update_self, update_ne,
}
use adv_os_jos.User.Pipe.{
  Pipe, pipebufsiz, take_byte, fill_byte, advance_wpos, next_byte, is_empty, is_full,
}
use adv_os_jos.User.Pipe.Content.{
  content, IsPipe, take-content, take-IsPipe, segment-update, segment_snoc,
}

-- Where the loop of devpipe_read stands: at its test; with the test passed; with the byte taken into
-- the buffer and `p_rpos` not yet incremented.
pub data Reader : Type 0 where
  looks : Reader
  may_take : Reader
  took : ℕ → Reader

-- Where the loop of devpipe_write stands: at its test; with the test passed for a byte; with the byte
-- in the pipe's buffer and `p_wpos` not yet incremented.
pub data Writer : Type 0 where
  waits : Writer
  may_store : ℕ → Writer
  stored : ℕ → Writer

-- The pipe after some steps of the two loops in any order, with the bytes whose round the writer and
-- the reader have ended. A test that fails leaves its loop, or comes to it again: no step.
pub data Reached : (sent got : List ℕ) → Reader → Writer → Pipe → Type 0 where
  fresh : (buf : ℕ → ℕ) → Reached [] [] looks waits (record { p_rpos = 0; p_wpos = 0; p_buf = buf })
  read_test :
      {sent got : List ℕ} {w : Writer} {p : Pipe}
      → Reached sent got looks w p
      → is_empty p ≡ false
      → Reached sent got may_take w p
  read_copy :
      {sent got : List ℕ} {w : Writer} {p : Pipe}
      → Reached sent got may_take w p
      → Reached sent got (took (next_byte p)) w p
  read_increment :
      {sent got : List ℕ} {w : Writer} {p : Pipe} {b : ℕ}
      → Reached sent got (took b) w p
      → Reached sent (got ++ (b ∷ [])) looks w (take_byte p)
  write_test :
      {sent got : List ℕ} {r : Reader} {p : Pipe}
      → Reached sent got r waits p
      → (b : ℕ) → is_full p ≡ false
      → Reached sent got r (may_store b) p
  write_copy :
      {sent got : List ℕ} {r : Reader} {p : Pipe} {b : ℕ}
      → Reached sent got r (may_store b) p
      → Reached sent got r (stored b) (fill_byte b p)
  write_increment :
      {sent got : List ℕ} {r : Reader} {p : Pipe} {b : ℕ}
      → Reached sent got r (stored b) p
      → Reached (sent ++ (b ∷ [])) got r waits (advance_wpos p)

-- What the reader relies on: there is a byte, and it is the one that was taken.
abbrev Reading : Reader → Pipe → Type 0
Reading looks p = Unit
Reading may_take p = p.p_rpos < p.p_wpos
Reading (took b) p = (p.p_rpos < p.p_wpos) × (b ≡ next_byte p)

-- What the writer relies on: there is room, and the byte that was stored is still there.
abbrev Writing : Writer → Pipe → Type 0
Writing waits p = Unit
Writing (may_store b) p = p.p_wpos < p.p_rpos + pipebufsiz
Writing (stored b) p = (p.p_wpos < p.p_rpos + pipebufsiz) × (p.p_buf (p.p_wpos % pipebufsiz) ≡ b)

record Flows (sent got : List ℕ) (r : Reader) (w : Writer) (p : Pipe) : Type 0 where
  flow : got ++ content p ≡ sent
  is_pipe : IsPipe p
  count : p.p_wpos ≡ length sent
  reading : Reading r p
  writing : Writing w p

module _ {p : Pipe} (v : IsPipe p) where
  not_empty : is_empty p ≡ false → p.p_rpos < p.p_wpos
  not_empty h = ground (arith, v.behind)

  empty_test : p.p_rpos < p.p_wpos → is_empty p ≡ false
  empty_test h = ground arith

  not_full : is_full p ≡ false → p.p_wpos < p.p_rpos + pipebufsiz
  not_full h = ground (arith, v.behind, v.in_range)

  -- The reader's increment keeps the room.
  Writing-take : (w : Writer) → p.p_rpos < p.p_wpos → Writing w p → Writing w (take_byte p)
  Writing-take waits some h = tt
  Writing-take (may_store b) some h = omega (arith, v.in_range)
  Writing-take (stored b) some (h, e) = (omega (arith, v.in_range), e)

  -- The byte is stored behind the content, which stays.
  module _ (b : ℕ) (room : p.p_wpos < p.p_rpos + pipebufsiz) where
    store-content : content (fill_byte b p) ≡ content p
    store-content =
        segment-update p.p_buf p.p_rpos (p.p_wpos - p.p_rpos) (p.p_wpos % pipebufsiz) b
          (λ i lt e. omega (arith, v.behind, e))

    Reading-store : (r : Reader) → Reading r p → Reading r (fill_byte b p)
    Reading-store looks h = tt
    Reading-store may_take h = h
    Reading-store (took c) (h, e) = (
      h,
      e ∙ sym (update_ne p.p_buf (p.p_wpos % pipebufsiz) b (p.p_rpos % pipebufsiz) (ground arith)),
    )

    store-IsPipe : IsPipe (fill_byte b p)
    store-IsPipe = record { behind = v.behind; within = v.within; in_range = v.in_range }

  -- The writer's increment adds the byte that is stored there.
  module _ (room : p.p_wpos < p.p_rpos + pipebufsiz) (small : p.p_wpos + 1 < 2 ^ 31) where
    advance_wpos-content :
        content (advance_wpos p) ≡ content p ++ (p.p_buf (p.p_wpos % pipebufsiz) ∷ [])
    advance_wpos-content =
        let n = p.p_wpos - p.p_rpos in
        let next : (p.p_wpos + 1) % 2 ^ 32 ≡ p.p_wpos + 1 = omega arith in
        let longer : p.p_wpos + 1 - p.p_rpos ≡ suc n = omega (arith, v.behind) in
        let end : p.p_rpos + n ≡ p.p_wpos = omega (arith, v.behind) in
        rw (next, longer)
          (segment_snoc p.p_buf p.p_rpos n
            ∙ ap (λ (t : ℕ). content p ++ (p.p_buf (t % pipebufsiz) ∷ [])) end)

    advance_wpos-IsPipe : IsPipe (advance_wpos p)
    advance_wpos-IsPipe = record {
      behind = omega (arith, v.behind);
      within = omega arith;
      in_range = omega arith;
    }

    Reading-advance_wpos : (r : Reader) → Reading r p → Reading r (advance_wpos p)
    Reading-advance_wpos looks h = tt
    Reading-advance_wpos may_take h = omega arith
    Reading-advance_wpos (took c) (h, e) = (omega arith, e)

Reached-Flows :
    {sent got : List ℕ} {r : Reader} {w : Writer} {p : Pipe}
    → Reached sent got r w p
    → length sent < 2 ^ 31
    → Flows sent got r w p
Reached-Flows (fresh buf) small = record {
  flow = refl;
  is_pipe = record { behind = omega arith; within = omega arith; in_range = omega arith };
  count = refl;
  reading = tt;
  writing = tt;
}
Reached-Flows (read_test h some) small =
    let f = Reached-Flows h small in
    record {
      flow = f.flow;
      is_pipe = f.is_pipe;
      count = f.count;
      reading = not_empty f.is_pipe some;
      writing = f.writing;
    }
Reached-Flows (read_copy h) small =
    let f = Reached-Flows h small in
    record {
      flow = f.flow;
      is_pipe = f.is_pipe;
      count = f.count;
      reading = (f.reading, refl);
      writing = f.writing;
    }
Reached-Flows (read_increment {sent} {got} {w} {p} {b} h) small =
    let f = Reached-Flows h small in
    let some = empty_test f.is_pipe f.reading.0 in
    record {
      flow =
          append_assoc got (b ∷ []) (content (take_byte p))
          ∙ ap (λ (c : ℕ). got ++ (c ∷ content (take_byte p))) f.reading.1
          ∙ ap (λ (xs : List ℕ). got ++ xs) (sym (take-content f.is_pipe some))
          ∙ f.flow;
      is_pipe = take-IsPipe f.is_pipe some;
      count = f.count;
      reading = tt;
      writing = Writing-take f.is_pipe w f.reading.0 f.writing;
    }
Reached-Flows (write_test h b room) small =
    let f = Reached-Flows h small in
    record {
      flow = f.flow;
      is_pipe = f.is_pipe;
      count = f.count;
      reading = f.reading;
      writing = not_full f.is_pipe room;
    }
Reached-Flows (write_copy {sent} {got} {r} {p} {b} h) small =
    let f = Reached-Flows h small in
    record {
      flow = ap (λ (xs : List ℕ). got ++ xs) (store-content f.is_pipe b f.writing) ∙ f.flow;
      is_pipe = store-IsPipe f.is_pipe b f.writing;
      count = f.count;
      reading = Reading-store f.is_pipe b f.writing r f.reading;
      writing = (f.writing, update_self p.p_buf (p.p_wpos % pipebufsiz) b);
    }
Reached-Flows (write_increment {sent} {got} {r} {p} {b} h) small =
    let f = Reached-Flows h (omega (arith, length-append sent (b ∷ []))) in
    let next : p.p_wpos + 1 < 2 ^ 31 = omega (arith, length-append sent (b ∷ []), f.count) in
    record {
      flow =
          ap (λ (xs : List ℕ). got ++ xs) (advance_wpos-content f.is_pipe f.writing.0 next)
          ∙ sym (append_assoc got (content p) (p.p_buf (p.p_wpos % pipebufsiz) ∷ []))
          ∙ ap₂ (λ (xs : List ℕ) (c : ℕ). xs ++ (c ∷ [])) f.flow f.writing.1;
      is_pipe = advance_wpos-IsPipe f.is_pipe f.writing.0 next;
      count = omega (arith, length-append sent (b ∷ []), f.count);
      reading = Reading-advance_wpos f.is_pipe f.writing.0 next r f.reading;
      writing = tt;
    }

-- One reader and one writer whose steps (a test, the copy of a byte, the increment of a position)
-- interleave in any order, while fewer than 2 ^ 31 bytes have been sent: the bytes received and then
-- those in the pipe are the bytes sent, in their order, and the pipe is well-formed, its `p_wpos` the number of bytes sent; and a byte that
-- the reader has copied and not yet counted is the first one in the pipe.
pub pipe_fifo :
    {sent got : List ℕ} {r : Reader} {w : Writer} {p : Pipe}
    → Reached sent got r w p
    → length sent < 2 ^ 31
    → (got ++ content p ≡ sent)
      × IsPipe p
      × (p.p_wpos ≡ length sent)
      × ((b : ℕ) → r ≡ took b → b ≡ next_byte p)
pipe_fifo {sent} {got} {r} {w} {p} h small =
    let f = Reached-Flows h small in (f.flow, f.is_pipe, f.count, by_place r f.reading)
  where
    by_place : (r' : Reader) → Reading r' p → (b : ℕ) → r' ≡ took b → b ≡ next_byte p
    by_place looks h b e = absurd (cc e)
    by_place may_take h b e = absurd (cc e)
    by_place (took c) (_, first) b e = let same : c ≡ b = cc e in sym same ∙ first
