-- ===== src/User/Tests.antt =====
-- The theorems on pipes and descriptors at concrete ones.
use adv_os_jos.User.Fd.{fdtable, FdOutcome, fd_alloc_lem}
use adv_os_jos.Prelude.{
  ℕ, Bool, true, ltb, ◌+◌, ◌/◌, update, ◌≡◌, refl, ◌++◌, false, [], ◌∷◌, arith,
}
use adv_os_jos.User.Pipe.{Pipe, put_byte, fill_byte, next_byte, devpipe_write}
use adv_os_jos.User.Pipe.Content.{content, IsPipe}
use adv_os_jos.User.Pipe.Steps.{
  Reached, took, stored, fresh, read_test, read_copy, write_test, write_copy, write_increment,
  pipe_fifo,
}
use adv_os_jos.User.Pipe.Stream.{Stored, devpipe_write_lem}

abbrev blank : Pipe
blank = record { p_rpos = 0; p_wpos = 0; p_buf = λ i. 0 }

blank-IsPipe : IsPipe blank
blank-IsPipe = record { behind = omega arith; within = omega arith; in_range = omega arith }

-- One byte has been written; the reader has copied it while the writer stores a second.
abbrev used : Pipe
used = fill_byte 8 (put_byte 7 blank)

used-Reached : Reached (7 ∷ []) [] (took 7) (stored 8) used
unfolding update
used-Reached = write_copy (
    read_copy (
      write_test
        (read_test (write_increment (write_copy (write_test (fresh (λ i. 0)) 7 refl))) refl) 8
        refl))

pipe_fifo_example :
    ([] ++ content used ≡ 7 ∷ [])
    × IsPipe used
    × (used.p_wpos ≡ 1)
    × ((b : ℕ) → took 7 ≡ took b → b ≡ next_byte used)
pipe_fifo_example = pipe_fifo used-Reached (omega arith)

devpipe_write_example : Stored false (1 ∷ 2 ∷ []) 0 blank (devpipe_write false (1 ∷ 2 ∷ []) blank)
devpipe_write_example = devpipe_write_lem false (1 ∷ 2 ∷ []) blank blank-IsPipe (omega arith)

-- The page tables of a program that has the descriptors 0 and 1.
abbrev some_table : ℕ → Bool
some_table i = true

abbrev two_pages : ℕ → Bool
two_pages i = ltb i (fdtable / 4096 + 2)

fd_alloc_example : FdOutcome some_table two_pages
fd_alloc_example = fd_alloc_lem some_table two_pages
