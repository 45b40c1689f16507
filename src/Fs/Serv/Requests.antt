-- ===== src/Fs/Serv/Requests.antt =====
-- The requests on an open file of lab/fs/serv.c.
use adv_os_jos.Prelude.{
  ℕ, ◌-◌, ◌%◌, ◌≡◌, ◌⊎◌, refl, not, ◌||◌, inl, inr, none, some, ◌==◌, leb, min, Bool-cases, pos,
  neg,
}
use adv_os_jos.Fs.{nblocks, e_inval}
use adv_os_jos.Fs.Data.Mapped.{Whole, contents}
use adv_os_jos.Fs.Data.Read.{file_read_lem}
use adv_os_jos.Fs.Serv.{
  Server, done, maxopen, openfile_lookup, Fsipc, unwritten, read_ret, advance, serve_read,
}

-- openfile_lookup finds the entry that the id leads to, or it refuses.
abbrev pub LookupOutcome : (s : Server) (fileid : ℕ) → Type 0
LookupOutcome s fileid =
    (openfile_lookup fileid s ≡ (pos 0, some (fileid % maxopen)))
    ⊎ (openfile_lookup fileid s ≡ (neg e_inval, none))

pub openfile_lookup_lem : (s : Server) (fileid : ℕ) → LookupOutcome s fileid
unfolding openfile_lookup
openfile_lookup_lem s fileid =
    let o = s.opentab (fileid % maxopen) in
    elim (Bool-cases (leb (s.pageref o.o_fd) 1 || not (o.o_fileid == fileid))) [
      | inl t ↦ inr (rw t refl)
      | inr t ↦ inl (rw t refl)
    ]

-- the file, and the descriptor, of the entry that an id leads to
abbrev pub file_of : (s : Server) (fileid : ℕ) → ℕ
file_of s fileid = (s.opentab (fileid % maxopen)).o_file

abbrev pub fd_of : (s : Server) (fileid : ℕ) → ℕ
fd_of s fileid = (s.opentab (fileid % maxopen)).o_fd

abbrev pub ReadReply : (s : Server) (req : Fsipc) → Type 0
ReadReply s req =
    let f = file_of s req.req_fileid in
    let fd = fd_of s req.req_fileid in
    let offset = (s.fds fd).fd_offset in
    let n = min (min req.req_n 4096) ((s.disk.files f).f_size - offset) in
    ((openfile_lookup req.req_fileid s ≡ (pos 0, some (req.req_fileid % maxopen)))
      × (serve_read req s ≡ done (pos n, read_ret (contents s.disk f n offset)) (advance fd n s)))
    ⊎ ((openfile_lookup req.req_fileid s ≡ (neg e_inval, none))
        × (serve_read req s ≡ done (neg e_inval, unwritten) s))

-- serve_read, where the blocks of the file that the id leads to are all there: for an id of an open
-- file it returns the bytes of the file from the descriptor's offset on, as many as were asked for,
-- at most 4096, and no further than the file's end, and moves the offset behind them, and nothing
-- else changes; any other id it refuses with -E_INVAL, and nothing changes.
pub serve_read_lem :
    (s : Server) (req : Fsipc)
    → Whole s.disk
        (file_of s req.req_fileid)
        (nblocks (s.disk.files (file_of s req.req_fileid)).f_size)
    → ReadReply s req
unfolding serve_read
serve_read_lem s req whole = elim (openfile_lookup_lem s req.req_fileid) [
  | inl found ↦ inl (
    found,
    rw found (
        rw
          (file_read_lem s.disk (file_of s req.req_fileid) (min req.req_n 4096)
            (s.fds (fd_of s req.req_fileid)).fd_offset whole)
          refl),
  )
  | inr refused ↦ inr (refused, rw refused refl)
]
