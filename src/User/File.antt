-- ===== src/User/File.antt =====
-- The calls on open files: the client stubs of lab/lib/file.c, and the calls of lab/lib/fd.c that lead
-- to them. A `struct Fd *` is the address that the file server has for the page.
pub mod Read
mod Tests
use adv_os_jos.Prelude.{
  ℕ, zero, suc, ◌+◌, ◌-◌, ◌*◌, ◌/◌, ◌%◌, ◌^◌, bit_and, Bool, true, false, not, ◌&&◌, ◌||◌, Option,
  none, some, List, [], ◌∷◌, ◌++◌, ◌==◌, ltb, leb, length, min, update, if◌then◌else◌, ℤ, pos,
  negsuc, neg,
}
use adv_os_jos.Fs.Serv.{
  Server, Outcome, done, panicked, Serve, give, change, ◌>>=◌, ◌>>◌, Fsipc, Page, unwritten,
  read_ret, stat_ret, Reply, serve, dev_id, o_accmode, maxpathlen,
}
use adv_os_jos.User.Fd.{fd_alloc, fd_lookup, fd2num, e_inval_fd}

abbrev pub e_not_supp : ℕ
e_not_supp = 15

abbrev pub e_bad_path : ℕ
e_bad_path = 12

abbrev pub o_rdonly : ℕ
o_rdonly = 0

abbrev pub o_wronly : ℕ
o_wronly = 1

-- The table of devices.
pub data Dev : Type 0 where
  devfile devpipe devcons : Dev

-- The result and `*dev`.
abbrev pub dev_lookup : (id : ℕ) → ℤ × Option Dev
dev_lookup id =
    if id == 102
    then (pos 0, some devfile)
    else if id == 112
    then (pos 0, some devpipe)
    else if id == 99
    then (pos 0, some devcons)
    else (neg e_inval_fd, none)

-- an empty request page
abbrev pub fsipcbuf : Fsipc
fsipcbuf = record {
  req_path = [];
  req_omode = 0;
  req_fileid = 0;
  req_size = 0;
  req_n = 0;
  req_buf = λ _. 0;
}

-- `fd->fd_file.id`
abbrev pub request_on : (fd : ℕ) → Server → Fsipc
request_on fd s = record fsipcbuf { req_fileid = (s.fds fd).fd_file_id }

-- The bytes that the answer has on the page.
abbrev pub ret_buf : Page → List ℕ
ret_buf unwritten = []
ret_buf (read_ret bytes) = bytes
ret_buf (stat_ret name size isdir) = []

-- The result and the bytes copied to `buf`; the assertions panic.
abbrev pub read_answer : (n : ℕ) → ℤ → Page → Serve (ℤ × List ℕ)
read_answer n (negsuc e) page = give (negsuc e, [])
read_answer n (pos r) page =
    if leb r n && leb r 4096 then give (pos r, ret_buf page) else λ s. panicked

-- `(fd->fd_omode & O_ACCMODE) == mode`
abbrev pub mode_is : (fd mode : ℕ) → Server → Bool
mode_is fd mode s = bit_and (s.fds fd).fd_omode o_accmode == mode

-- A round of readn, with `m` as its read left it; `go` is the rest of the loop.
abbrev pub readn_round : (tot : ℕ) → ℤ × List ℕ → (ℕ → Serve (ℤ × List ℕ)) → Serve (ℤ × List ℕ)
readn_round tot (negsuc e, bytes) go = give (negsuc e, bytes)
readn_round tot (pos zero, bytes) go = give (pos tot, bytes)
readn_round tot (pos (suc m), bytes) go = do (r, rest) ← go (tot + suc m); give (r, bytes ++ rest)

abbrev pub with_dev : (fd : ℕ) → ℤ × Option Dev → ℤ × Option (ℕ × Dev)
with_dev fd (r, none) = (r, none)
with_dev fd (r, some dev) = (r, some (fd, dev))

-- The system call of the server's, and the memory of the program: the pages that are mapped, and the
-- server's address of the page at a descriptor's.
module _ (sys_page_alloc : (va : ℕ) → (ℕ → ℕ) → ℤ × (ℕ → ℕ)) (uvpd uvpt : ℕ → Bool)
    (page_at : ℕ → ℕ) where
  -- A request, with the page `req` and the permissions of a page for writing, and the answer of a
  -- round of the server; a request that is left unanswered waits for good.
  unfoldable pub fsipc : (type : ℕ) → Fsipc → Serve Reply
  fsipc type req = do
    answer ← serve sys_page_alloc type 7 req
    (λ s. elim answer [ none ↦ panicked | some r ↦ done r s ])

  unfoldable pub devfile_flush : (fd : ℕ) → Serve ℤ
  devfile_flush fd s = (do r ← fsipc 6 (request_on fd s); give r.value) s

  unfoldable pub devfile_read : (fd n : ℕ) → Serve (ℤ × List ℕ)
  devfile_read fd n s =
      (do r ← fsipc 3 (record (request_on fd s) { req_n = n }); read_answer n r.value r.page) s

  -- `sizeof(fsipcbuf.write.req_buf)` bytes at most.
  unfoldable pub devfile_write : (fd : ℕ) (buf : ℕ → ℕ) (n : ℕ) → Serve ℤ
  devfile_write fd buf n s =
      (do
        r ←
            fsipc 4
              (record (request_on fd s) { req_n = if ltb n 4088 then n else 4088; req_buf = buf })
        give r.value)
        s

  unfoldable pub devfile_stat : (fd : ℕ) → Serve (ℤ × Page)
  devfile_stat fd s = (do r ← fsipc 5 (request_on fd s); give (r.value, r.page)) s

  unfoldable pub devfile_trunc : (fd newsize : ℕ) → Serve ℤ
  devfile_trunc fd newsize s =
      (do r ← fsipc 2 (record (request_on fd s) { req_size = newsize }); give r.value) s

  unfoldable pub sync : Serve ℤ
  sync = do r ← fsipc 8 fsipcbuf; give r.value

  -- open: the number of the descriptor, and the page of the server's that is mapped there. After a
  -- failure fd_close finds no page mapped at the descriptor, and does nothing.
  unfoldable pub open_file : (path : List ℕ) (mode : ℕ) → Serve (ℤ × Option ℕ)
  open_file path mode =
      if leb maxpathlen (length path)
      then give (neg e_bad_path, none)
      else elim (fd_alloc uvpd uvpt).0 [
        | negsuc e ↦ give (negsuc e, none)
        | pos _ ↦ (do
          r ← fsipc 1 (record fsipcbuf { req_path = path; req_omode = mode })
          (λ s. elim r.value [
            | negsuc e ↦ done (negsuc e, none) s
            | pos _ ↦ done (pos (fd2num (fd_alloc uvpd uvpt).1), r.pg) s
          ]))
      ]

  -- The descriptor of a number and its device, or the error of fd_lookup or of dev_lookup.
  abbrev pub dev_of : ℤ × Option ℕ → Server → ℤ × Option (ℕ × Dev)
  dev_of (r, none) s = (r, none)
  dev_of (r, some fd) s = with_dev (page_at fd) (dev_lookup (s.fds (page_at fd)).fd_dev_id)

  abbrev pub lookup_dev : (fdnum : ℤ) → Server → ℤ × Option (ℕ × Dev)
  lookup_dev fdnum = dev_of (fd_lookup uvpd uvpt fdnum)

  unfoldable pub seek : (fdnum : ℤ) (offset : ℕ) → Serve ℤ
  seek fdnum offset s = elim (fd_lookup uvpd uvpt fdnum).1 [
    | none ↦ done (fd_lookup uvpd uvpt fdnum).0 s
    | some fd ↦ done (pos 0) (record s {
      fds = update s.fds (page_at fd) (record (s.fds (page_at fd)) { fd_offset = offset });
    })
  ]

  -- The calls of the other devices.
  module _ (other_read : Dev → (fd n : ℕ) → Serve (ℤ × List ℕ))
      (other_write : Dev → (fd : ℕ) (buf : ℕ → ℕ) (n : ℕ) → Serve ℤ)
      (other_stat : Dev → (fd : ℕ) → Serve (ℤ × Page)) where
    abbrev pub dev_read : Dev → (fd n : ℕ) → Serve (ℤ × List ℕ)
    dev_read devfile fd n = devfile_read fd n
    dev_read devpipe fd n = other_read devpipe fd n
    dev_read devcons fd n = other_read devcons fd n

    abbrev pub read_from_dev : ℤ × Option (ℕ × Dev) → (n : ℕ) → Serve (ℤ × List ℕ)
    read_from_dev (r, none) n s = done (r, []) s
    read_from_dev (r, some (fd, dev)) n s =
        if mode_is fd o_wronly s then done (neg e_inval_fd, []) s else dev_read dev fd n s

    unfoldable pub read : (fdnum : ℤ) (n : ℕ) → Serve (ℤ × List ℕ)
    read fdnum n s = read_from_dev (lookup_dev fdnum s) n s

    -- The `for` of readn, on fuel; without it, a panic.
    readn_from : (fuel : ℕ) (fdnum : ℤ) (tot n : ℕ) → Serve (ℤ × List ℕ)
    readn_from zero fdnum tot n s = if ltb tot n then panicked else done (pos tot, []) s
    readn_from (suc fuel) fdnum tot n s =
        if ltb tot n
        then (do m ← read fdnum (n - tot); readn_round tot m (λ t. readn_from fuel fdnum t n)) s
        else done (pos tot, []) s

    unfoldable pub readn : (fdnum : ℤ) (n : ℕ) → Serve (ℤ × List ℕ)
    unfolding readn_from
    readn fdnum n = readn_from n fdnum 0 n

    abbrev pub dev_write : Dev → (fd : ℕ) (buf : ℕ → ℕ) (n : ℕ) → Serve ℤ
    dev_write devfile fd buf n = devfile_write fd buf n
    dev_write devpipe fd buf n = other_write devpipe fd buf n
    dev_write devcons fd buf n = other_write devcons fd buf n

    abbrev pub write_to_dev : ℤ × Option (ℕ × Dev) → (buf : ℕ → ℕ) (n : ℕ) → Serve ℤ
    write_to_dev (r, none) buf n s = done r s
    write_to_dev (r, some (fd, dev)) buf n s =
        if mode_is fd o_rdonly s then done (neg e_inval_fd) s else dev_write dev fd buf n s

    unfoldable pub write : (fdnum : ℤ) (buf : ℕ → ℕ) (n : ℕ) → Serve ℤ
    write fdnum buf n s = write_to_dev (lookup_dev fdnum s) buf n s

    -- Pipes and the console have no dev_trunc.
    abbrev pub trunc_on_dev : ℤ × Option (ℕ × Dev) → (newsize : ℕ) → Serve ℤ
    trunc_on_dev (r, none) newsize s = done r s
    trunc_on_dev (r, some (fd, dev)) newsize s =
        if mode_is fd o_rdonly s then done (neg e_inval_fd) s else elim dev [
          | devfile ↦ devfile_trunc fd newsize s
          | devpipe ↦ done (neg e_not_supp) s
          | devcons ↦ done (neg e_not_supp) s
        ]

    unfoldable pub ftruncate : (fdnum : ℤ) (newsize : ℕ) → Serve ℤ
    ftruncate fdnum newsize s = trunc_on_dev (lookup_dev fdnum s) newsize s

    abbrev pub stat_on_dev : ℤ × Option (ℕ × Dev) → Serve (ℤ × Page)
    stat_on_dev (r, none) s = done (r, unwritten) s
    stat_on_dev (r, some (fd, devfile)) s = devfile_stat fd s
    stat_on_dev (r, some (fd, devpipe)) s = other_stat devpipe fd s
    stat_on_dev (r, some (fd, devcons)) s = other_stat devcons fd s

    unfoldable pub fstat : (fdnum : ℤ) → Serve (ℤ × Page)
    fstat fdnum s = stat_on_dev (lookup_dev fdnum s) s
