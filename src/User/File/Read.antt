-- ===== src/User/File/Read.antt =====
-- read and readn of lab/lib/fd.c on a file that the file server has open.
use adv_os_jos.Prelude.{
  ℕ, zero, suc, ◌+◌, ◌-◌, ◌%◌, ◌<◌, ◌≤◌, ◌≡◌, refl, sym, ◌∙◌, ap, ap₂, fun_ext, Bool, true, false,
  inl, inr, Bool-cases, Option, some, List, [], ◌++◌, ◌==◌, ==_iff, bit_and, ltb, leb, le→ltb,
  le→leb, min, arith, update, update_self, update-update, if◌then◌else◌, ℤ, pos, neg,
}
use adv_os_jos.Fs.{nblocks}
use adv_os_jos.Fs.Data.Mapped.{Whole, contents}
use adv_os_jos.Fs.Data.Read.{contents-split}
use adv_os_jos.Fs.Serv.{
  Server, Fd, Outcome, done, Serve, give, after, Fsipc, Page, read_ret, maxopen, openfile_lookup,
  advance, serve_read, serve,
}
use adv_os_jos.Fs.Serv.Requests.{file_of, fd_of, serve_read_lem}
use adv_os_jos.User.Fd.{fd_lookup, e_inval_fd}
use adv_os_jos.User.File.{
  Dev, o_wronly, mode_is, fsipc, request_on, devfile_read, read, readn, readn_from, readn_round,
  dev_of, with_dev, dev_lookup, read_from_dev,
}

-- Moving an offset twice is moving it by the sum, and moving it by 0 is nothing.
by_index : {A : Type 0} (g : ℕ → A) (v : A) (i j : ℕ) → update g i v j ≡ (if i == j then v else g j)
unfolding update
by_index g v i j = refl

advance-zero : (p : ℕ) (s : Server) → advance p 0 s ≡ s
advance-zero p s = ap (λ (g : ℕ → Fd). record s { fds = g }) (fun_ext (λ j. same j))
  where
    still : record (s.fds p) { fd_offset = (s.fds p).fd_offset + 0 } ≡ s.fds p
    still =
        ap (λ (o : ℕ). record (s.fds p) { fd_offset = o }) {y = (s.fds p).fd_offset} (omega arith)

    same :
        (j : ℕ)
        → update s.fds p (record (s.fds p) { fd_offset = (s.fds p).fd_offset + 0 }) j ≡ s.fds j
    same j = by_index s.fds _ p j ∙ elim (Bool-cases (p == j)) [
      | inl t ↦ rw t (still ∙ ap s.fds ((==_iff p j).0 t))
      | inr t ↦ rw t refl
    ]

advance-advance : (p a b : ℕ) (s : Server) → advance p b (advance p a s) ≡ advance p (a + b) s
advance-advance p a b s =
    let moved : Fd = record (s.fds p) { fd_offset = (s.fds p).fd_offset + a } in
    ap
      (λ (fd : Fd). record s {
        fds = update (update s.fds p moved) p (record fd { fd_offset = fd.fd_offset + b });
      })
      (update_self s.fds p moved)
    ∙ ap (λ (g : ℕ → Fd). record s { fds = g }) (update-update s.fds p moved _)
    ∙ ap (λ (o : ℕ). record s { fds = update s.fds p (record (s.fds p) { fd_offset = o }) })
        {x = (s.fds p).fd_offset + a + b} {y = (s.fds p).fd_offset + (a + b)} (omega arith)

module _ (uvpd uvpt : ℕ → Bool) (page_at : ℕ → ℕ) where
  -- The descriptor `fdnum` is that of the open file `id`, for reading, at the offset `off`, and the
  -- blocks of the file are all there.
  pub record IsOpen (fdnum : ℤ) (fd id off : ℕ) (s : Server) : Type 0 where
    pub number : fd_lookup uvpd uvpt fdnum ≡ (pos 0, some fd)
    pub device : (s.fds (page_at fd)).fd_dev_id ≡ 102
    pub mode : mode_is (page_at fd) o_wronly s ≡ false
    pub file_id : (s.fds (page_at fd)).fd_file_id ≡ id
    pub offset : (s.fds (page_at fd)).fd_offset ≡ off
    pub lookup : openfile_lookup id s ≡ (pos 0, some (id % maxopen))
    pub same_page : fd_of s id ≡ page_at fd
    pub whole : Whole s.disk (file_of s id) (nblocks (s.disk.files (file_of s id)).f_size)

  IsOpen-advance :
      (fdnum : ℤ) (fd id off m : ℕ) (s : Server)
      → IsOpen fdnum fd id off s
      → IsOpen fdnum fd id (off + m) (advance (page_at fd) m s)
  unfolding openfile_lookup
  IsOpen-advance fdnum fd id off m s h =
      let p : ℕ = page_at fd in
      let moved : Fd = record (s.fds p) { fd_offset = (s.fds p).fd_offset + m } in
      let e : (advance p m s).fds p ≡ moved = update_self s.fds p moved in
      record {
        number = h.number;
        device = ap (λ (x : Fd). x.fd_dev_id) e ∙ h.device;
        mode = ap (λ (x : Fd). bit_and x.fd_omode 3 == 1) e ∙ h.mode;
        file_id = ap (λ (x : Fd). x.fd_file_id) e ∙ h.file_id;
        offset = ap (λ (x : Fd). x.fd_offset) e ∙ ap (λ (o : ℕ). o + m) h.offset;
        lookup = h.lookup;
        same_page = h.same_page;
        whole = h.whole;
      }

  -- the bytes of the file from `off` on
  abbrev pub left_from : (id off : ℕ) (s : Server) → ℕ
  left_from id off s = (s.disk.files (file_of s id)).f_size - off

module _ (s : Server) (p id off n : ℕ) where
  -- What serve_read answers the stub.
  answered :
      openfile_lookup id s ≡ (pos 0, some (id % maxopen))
      → fd_of s id ≡ p
      → (s.fds p).fd_offset ≡ off
      → Whole s.disk (file_of s id) (nblocks (s.disk.files (file_of s id)).f_size)
      → (req : Fsipc) → req.req_fileid ≡ id
      → req.req_n ≡ n
      → let m = min (min n 4096) ((s.disk.files (file_of s id)).f_size - off) in
        serve_read req s
        ≡ done (pos m, read_ret (contents s.disk (file_of s id) m off)) (advance p m s)
  answered lookup same_page offset whole req same_id same_n =
      elim (serve_read_lem s req (rw same_id whole)) [
        | inl (found, e) ↦ e ∙ rw (same_n, same_id) (rw same_page (rw offset refl))
        | inr (refused, e) ↦ absurd (cc (rw same_id at refused, lookup))
      ]

-- The system call of the server, the memory of the program, and the other devices.
module _ (sys_page_alloc : (va : ℕ) → (ℕ → ℕ) → ℤ × (ℕ → ℕ)) (uvpd uvpt : ℕ → Bool)
    (page_at : ℕ → ℕ) (other_read : Dev → (fd n : ℕ) → Serve (ℤ × List ℕ))
    (other_write : Dev → (fd : ℕ) (buf : ℕ → ℕ) (n : ℕ) → Serve ℤ)
    (other_stat : Dev → (fd : ℕ) → Serve (ℤ × Page)) where
  abbrev read_file : (fdnum : ℤ) (n : ℕ) → Serve (ℤ × List ℕ)
  read_file = read sys_page_alloc uvpd uvpt page_at other_read other_write other_stat

  abbrev from_dev : ℤ × Option (ℕ × Dev) → (n : ℕ) → Serve (ℤ × List ℕ)
  from_dev = read_from_dev sys_page_alloc uvpd uvpt page_at other_read other_write other_stat

  abbrev readn_file : (fuel : ℕ) (fdnum : ℤ) (tot n : ℕ) → Serve (ℤ × List ℕ)
  readn_file = readn_from sys_page_alloc uvpd uvpt page_at other_read other_write other_stat

  module _ (fdnum : ℤ) (fd id : ℕ) where
    abbrev chunk : (off n : ℕ) → Server → ℕ
    chunk off n s = min (min n 4096) (left_from uvpd uvpt page_at id off s)

    devfile_read-IsOpen :
        (off n : ℕ) (s : Server)
        → IsOpen uvpd uvpt page_at fdnum fd id off s
        → devfile_read sys_page_alloc uvpd uvpt page_at (page_at fd) n s
          ≡ done
              (pos (chunk off n s), contents s.disk (file_of s id) (chunk off n s) off)
              (advance (page_at fd) (chunk off n s) s)
    unfolding devfile_read fsipc serve
    devfile_read-IsOpen off n s h =
        let asked : leb (chunk off n s) n ≡ true = le→leb _ _ (omega arith) in
        let fits : leb (chunk off n s) 4096 ≡ true = le→leb _ _ (omega arith) in
        let e =
          answered s (page_at fd) id off n h.lookup h.same_page h.offset h.whole
            (record (request_on (page_at fd) s) { req_n = n }) h.file_id refl in
        rw e (rw (asked, fits) refl)

    read-IsOpen :
        (off n : ℕ) (s : Server)
        → IsOpen uvpd uvpt page_at fdnum fd id off s
        → read_file fdnum n s
          ≡ done
              (pos (chunk off n s), contents s.disk (file_of s id) (chunk off n s) off)
              (advance (page_at fd) (chunk off n s) s)
    unfolding read
    read-IsOpen off n s h =
        let p : ℕ = page_at fd in
        ap (λ (x : ℤ × Option ℕ). from_dev (dev_of sys_page_alloc uvpd uvpt page_at x s) n s)
          h.number
        ∙ ap (λ (x : ℕ). from_dev (with_dev p (dev_lookup x)) n s) h.device
        ∙ ap
            (λ (b : Bool).
              if b
              then done (neg e_inval_fd, []) s
              else devfile_read sys_page_alloc uvpd uvpt page_at p n s)
            h.mode
        ∙ devfile_read-IsOpen off n s h

    -- A round of the loop, of a read that left `x` bytes.
    abbrev Rounds : (fuel tot n off : ℕ) → Server → Type 0
    Rounds fuel tot n off s =
        let m = min (n - tot) (left_from uvpd uvpt page_at id off s) in
        readn_file fuel fdnum tot n s
        ≡ done (pos (tot + m), contents s.disk (file_of s id) m off) (advance (page_at fd) m s)

    stop :
        (tot off m : ℕ) (s : Server)
        → m ≡ 0
        → ◌≡◌ {A = Outcome (ℤ × List ℕ)}
            (done (pos tot, []) s)
            (done (pos (tot + m), contents s.disk (file_of s id) m off) (advance (page_at fd) m s))
    stop tot off m s e = rw e (
        ap₂ (λ (t : ℕ) (x : Server). done (pos t, []) x) (omega arith)
          (sym (advance-zero (page_at fd) s)))

    abbrev cont : (fuel tot n x off : ℕ) → Server → Outcome (ℤ × List ℕ)
    cont fuel tot n x off s =
        readn_round tot (pos x, contents s.disk (file_of s id) x off)
          (λ t. readn_file fuel fdnum t n) (advance (page_at fd) x s)

    after_read :
        (fuel tot n x off : ℕ) (s : Server)
        → tot < n
        → x ≡ chunk off (n - tot) s
        → ((t : ℕ) → t ≡ tot + x → 0 < x → Rounds fuel t n (off + x) (advance (page_at fd) x s))
        → let m = min (n - tot) (left_from uvpd uvpt page_at id off s) in
          cont fuel tot n x off s
          ≡ done (pos (tot + m), contents s.disk (file_of s id) m off) (advance (page_at fd) m s)
    after_read fuel tot n zero off s more e rest =
        ap (λ (x : Server). done (pos tot, []) x) (advance-zero (page_at fd) s)
        ∙ stop tot off (min (n - tot) (left_from uvpd uvpt page_at id off s)) s (omega (arith, e))
    after_read fuel tot n (suc y) off s more e rest =
        let f : ℕ = file_of s id in
        let p : ℕ = page_at fd in
        let l : ℕ = left_from uvpd uvpt page_at id off s in
        let m' : ℕ = min (n - (tot + suc y)) (left_from uvpd uvpt page_at id (off + suc y) s) in
        let whole_count : suc y + m' ≡ min (n - tot) l = omega (arith, e) in
        ap
          (λ (r : Outcome (ℤ × List ℕ)).
            after r (λ x. give (x.0, contents s.disk f (suc y) off ++ x.1)))
          (rest (tot + suc y) refl (omega arith))
        ∙ ap₂ (λ (xs : List ℕ) (x : Server). done (pos (tot + suc y + m'), xs) x)
            (sym (contents-split s.disk f (suc y) m' off)) (advance-advance p (suc y) m' s)
        ∙ ap₂ (λ (t c : ℕ). done (pos t, contents s.disk f c off) (advance p c s))
            {x = tot + suc y + m'} {y = tot + min (n - tot) l} (omega (arith, whole_count))
            whole_count

    readn_from-Rounds :
        (fuel tot n off : ℕ) (s : Server)
        → IsOpen uvpd uvpt page_at fdnum fd id off s
        → n - tot ≤ fuel
        → Rounds fuel tot n off s
    unfolding readn_from
    readn_from-Rounds zero tot n off s h enough =
        rw (le→ltb tot n (omega arith))
          (stop tot off (min (n - tot) (left_from uvpd uvpt page_at id off s)) s (omega arith))
    readn_from-Rounds (suc fuel) tot n off s h enough = elim (Bool-cases (ltb tot n)) [
      | inl t ↦
          let more : tot < n = ground arith in
          rw t (
            rw (read-IsOpen off (n - tot) s h) (
              after_read fuel tot n (chunk off (n - tot) s) off s more refl (λ t' e some_read.
                readn_from-Rounds fuel t' n (off + chunk off (n - tot) s)
                  (advance (page_at fd) (chunk off (n - tot) s) s)
                  (IsOpen-advance uvpd uvpt page_at fdnum fd id off (chunk off (n - tot) s) s h)
                  (omega (arith, e, some_read)))))
      | inr t ↦
          rw t
            (stop tot off (min (n - tot) (left_from uvpd uvpt page_at id off s)) s (ground arith))
    ]

-- readn on the descriptor of a file that the server has open, for reading, whose blocks are all
-- there, on a server that has every block in memory, so that no access to the disk map faults (a
-- first access inside a block would not be resolved): it returns, after as many reads as it takes, the number of bytes that are left of the file
-- or `n` if that is less; the bytes are those of the file from the descriptor's offset on; and the
-- offset has moved behind them, and nothing else has changed.
pub readn_lem :
    (sys_page_alloc : (va : ℕ) → (ℕ → ℕ) → ℤ × (ℕ → ℕ)) (uvpd uvpt : ℕ → Bool) (page_at : ℕ → ℕ)
    (other_read : Dev → (fd n : ℕ) → Serve (ℤ × List ℕ))
    (other_write : Dev → (fd : ℕ) (buf : ℕ → ℕ) (n : ℕ) → Serve ℤ)
    (other_stat : Dev → (fd : ℕ) → Serve (ℤ × Page)) (fdnum : ℤ) (fd id off n : ℕ) (s : Server)
    → IsOpen uvpd uvpt page_at fdnum fd id off s
    → let m = min n (left_from uvpd uvpt page_at id off s) in
      readn sys_page_alloc uvpd uvpt page_at other_read other_write other_stat fdnum n s
      ≡ done (pos m, contents s.disk (file_of s id) m off) (advance (page_at fd) m s)
unfolding readn
readn_lem sys_page_alloc uvpd uvpt page_at other_read other_write other_stat fdnum fd id off n s h =
    let m : ℕ = min n (left_from uvpd uvpt page_at id off s) in
    readn_from-Rounds sys_page_alloc uvpd uvpt page_at other_read other_write other_stat fdnum fd id
      n 0 n off s h (omega arith)
    ∙ ap₂
        (λ (t c : ℕ). done (pos t, contents s.disk (file_of s id) c off) (advance (page_at fd) c s))
        {x = 0 + min (n - 0) (left_from uvpd uvpt page_at id off s)} {y = m} (omega arith)
        (omega arith)
