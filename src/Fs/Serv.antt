-- ===== src/Fs/Serv.antt =====
-- The file server of lab/fs/serv.c: the table of open files, the handlers, and a round of its loop.
-- A `struct OpenFile *` is an index into the table; a `struct Fd *` is an address.
pub mod Alloc
pub mod Requests
pub mod Table
pub mod Tests
use adv_os_jos.Prelude.{
  ℕ, zero, suc, ◌+◌, ◌-◌, ◌*◌, ◌/◌, ◌%◌, ◌^◌, bit_and, bit_or, Bool, true, false, not, ◌&&◌, ◌||◌,
  Option, none, some, List, [], ◌∷◌, ◌==◌, ltb, leb, min, update, if◌then◌else◌, ℤ, pos, negsuc,
  neg, is_neg,
}
use adv_os_jos.Fs.{Disk, File, Run, Cmd, set_file, file_set_size, blksize, e_inval}
use adv_os_jos.Fs.Data.{file_read, file_write, fs_sync}
use adv_os_jos.Fs.Path.{file_create, file_open, file_flush, e_file_exists, ftype_dir}

abbrev pub maxopen : ℕ
maxopen = 1024

abbrev pub fileva : ℕ
fileva = 0xd0000000

abbrev pub maxpathlen : ℕ
maxpathlen = 1024

abbrev pub e_max_open : ℕ
e_max_open = 10

abbrev pub o_accmode : ℕ
o_accmode = 3

abbrev pub o_creat : ℕ
o_creat = 0x100

abbrev pub o_trunc : ℕ
o_trunc = 0x200

abbrev pub o_excl : ℕ
o_excl = 0x400

-- devfile.dev_id
abbrev pub dev_id : ℕ
dev_id = 102

-- PTE_P|PTE_U|PTE_W|PTE_SHARE
abbrev pub fd_perm : ℕ
fd_perm = 0x407

-- struct OpenFile
pub record OpenFile : Type 0 where
  pub o_fileid : ℕ
  pub o_file : ℕ
  pub o_mode : ℕ
  pub o_fd : ℕ

-- struct Fd
pub record Fd : Type 0 where
  pub fd_dev_id : ℕ
  pub fd_offset : ℕ
  pub fd_omode : ℕ
  pub fd_file_id : ℕ

-- The server's state: the memory of the file system, the table, the Fd pages by their addresses,
-- and what pageref tells of an address.
pub record Server : Type 0 where
  pub disk : Disk
  pub opentab : ℕ → OpenFile
  pub fds : ℕ → Fd
  pub pageref : ℕ → ℕ

pub data Outcome (A : Type 0) : Type 0 where
  done : A → Server → Outcome A
  panicked : Outcome A

abbrev pub Serve : Type 0 → Type 0
Serve A = Server → Outcome A

abbrev pub give : {A : Type 0} → A → Serve A
give a = done a

module _ {A B : Type 0} where
  abbrev pub after : Outcome A → (A → Serve B) → Outcome B
  after (done a s) f = f a s
  after panicked f = panicked

  infixl 5 ◌>>=◌ ◌>>◌
  abbrev pub ◌>>=◌ : Serve A → (A → Serve B) → Serve B
  m >>= f = λ s. after (m s) f

  abbrev pub ◌>>◌ : Serve A → Serve B → Serve B
  m >> n = m >>= λ _. n

abbrev pub change : (Server → Server) → Serve (Unit {0})
change f s = done tt (f s)

-- a run of the file system in the server
abbrev pub finish : {A : Type 0} → Run A → Serve A
finish (Run.ok a d) s = done a (record s { disk = d })
finish Run.panic s = panicked

abbrev pub on_disk : {A : Type 0} → Cmd A → Serve A
on_disk c s = finish (c s.disk) s

-- the int that a word is
abbrev pub as_int : ℕ → ℤ
as_int n = if leb (2 ^ 31) n then negsuc (2 ^ 32 - 1 - n) else pos n

unfoldable pub serve_init : Server → Server
serve_init s = record s {
  opentab = λ i.
      if ltb i maxopen
      then record (s.opentab i) { o_fileid = i; o_fd = fileva + i * 4096 }
      else s.opentab i;
}

abbrev pub zero_fd : Fd
zero_fd = record { fd_dev_id = 0; fd_offset = 0; fd_omode = 0; fd_file_id = 0 }

-- Case 1 of openfile_alloc: the new id of entry `i`, and its cleared Fd page.
abbrev pub handed : (i : ℕ) → Server → Server
handed i s = record s {
  opentab =
      update s.opentab i
        (record (s.opentab i) { o_fileid = ((s.opentab i).o_fileid + maxopen) % 2 ^ 32 });
  fds = update s.fds (s.opentab i).o_fd zero_fd;
}

abbrev pub hand_out : (i : ℕ) → Serve (ℤ × Option ℕ)
hand_out i = change (handed i) >> (λ s. done (as_int (s.opentab i).o_fileid, some i) s)

-- the rest of openfile_alloc after a sys_page_alloc
abbrev pub once_mapped : (i : ℕ) → ℤ → Serve (ℤ × Option ℕ)
once_mapped i (negsuc n) = give (negsuc n, none)
once_mapped i (pos _) = hand_out i

-- Look up an open file: the result and `*po`.
unfoldable pub openfile_lookup : (fileid : ℕ) → Server → ℤ × Option ℕ
openfile_lookup fileid s =
    let o = s.opentab (fileid % maxopen) in
    if leb (s.pageref o.o_fd) 1 || not (o.o_fileid == fileid)
    then (neg e_inval, none)
    else (pos 0, some (fileid % maxopen))

-- `if ((r = openfile_lookup(envid, fileid, &o)) < 0) return r;`, and the rest of the handler.
abbrev pub looked_up : {A : Type 0} → A → (ℕ → Serve (ℤ × A)) → ℤ × Option ℕ → Serve (ℤ × A)
looked_up none_yet go (r, none) = give (r, none_yet)
looked_up none_yet go (r, some o) = go o

abbrev pub with_file : {A : Type 0} → A → (fileid : ℕ) → (ℕ → Serve (ℤ × A)) → Serve (ℤ × A)
with_file none_yet fileid go s = looked_up none_yet go (openfile_lookup fileid s) s

-- The request page, union Fsipc: the fields as the handlers read them. Ids are the bit patterns of
-- an int; `req_path` is the bytes before the first NUL, where the page has one.
pub record Fsipc : Type 0 where
  pub req_path : List ℕ
  pub req_omode : ℕ
  pub req_fileid : ℕ
  pub req_size : ℕ
  pub req_n : ℕ
  pub req_buf : ℕ → ℕ

-- What a handler writes to the request page.
pub data Page : Type 0 where
  unwritten : Page
  read_ret : List ℕ → Page
  stat_ret : (name : List ℕ) (size : ℕ) (isdir : Bool) → Page

abbrev pub bytes_to : (n : ℕ) → List ℕ → List ℕ
bytes_to zero xs = []
bytes_to (suc n) [] = []
bytes_to (suc n) (x ∷ xs) = x ∷ bytes_to n xs

-- `mode & flag`
abbrev pub has_flag : (mode flag : ℕ) → Bool
has_flag mode flag = not (bit_and mode flag == 0)

abbrev pub is_exists : ℤ → Bool
is_exists (pos n) = false
is_exists (negsuc n) = n + 1 == e_file_exists

-- file_create, and file_open where the file is there already.
open_or_create : (path : List ℕ) (mode : ℕ) → Serve (ℤ × Option ℕ)
open_or_create path mode =
    if has_flag mode o_creat
    then (do
      (r, f) ← on_disk (file_create path)
      (if is_neg r && not (has_flag mode o_excl) && is_exists r
          then on_disk (file_open path)
          else give (r, f)))
    else on_disk (file_open path)

-- The end of serve_open, with the file `f` of entry `o`: the Fd page, and the result.
fill_fd : (o f mode : ℕ) → Serve (ℤ × Option ℕ)
fill_fd o f mode = do
  change (λ s. record s { opentab = update s.opentab o (record (s.opentab o) { o_file = f }) })
  change (λ s.
      let fd = (s.opentab o).o_fd in
      record s {
        fds = update s.fds fd (record (s.fds fd) {
          fd_file_id = (s.opentab o).o_fileid;
          fd_omode = bit_and mode o_accmode;
          fd_dev_id = dev_id;
        });
      })
  change (λ s. record s { opentab = update s.opentab o (record (s.opentab o) { o_mode = mode }) })
  (λ s. done (pos 0, some (s.opentab o).o_fd) s)

-- A step that yields a file, and what follows unless it fails.
abbrev pub on_file : Serve (ℤ × Option ℕ) → (ℕ → Serve (ℤ × Option ℕ)) → Serve (ℤ × Option ℕ)
on_file step go = do
  (r, f) ← step
  (λ s. elim r [
    | negsuc n ↦ done (negsuc n, none) s
    | pos _ ↦ elim f [ none ↦ panicked | some g ↦ go g s ]
  ])

-- `if (req->req_omode & O_TRUNC)`; file_set_size never fails.
truncate : (f mode : ℕ) → Serve (Unit {0})
truncate f mode =
    if has_flag mode o_trunc then on_disk (file_set_size f 0) >>= (λ _. give tt) else give tt

-- The handlers that an open file is needed for.
unfoldable pub serve_set_size : Fsipc → Serve (ℤ × Page)
serve_set_size req = with_file unwritten req.req_fileid λ o.
    λ s. (do r ← on_disk (file_set_size (s.opentab o).o_file req.req_size); give (r, unwritten)) s

-- `o->o_fd->fd_offset += r`
abbrev pub advance : (fd r : ℕ) → Server → Server
advance fd r s = record s {
  fds = update s.fds fd (record (s.fds fd) { fd_offset = (s.fds fd).fd_offset + r });
}

unfoldable pub serve_read : Fsipc → Serve (ℤ × Page)
serve_read req = with_file unwritten req.req_fileid λ o. λ s.
    let fd = (s.opentab o).o_fd in
    (do
      (r, bytes) ←
          on_disk (file_read (s.opentab o).o_file (min req.req_n 4096) (s.fds fd).fd_offset)
      (λ s'. elim r [
        | negsuc n ↦ done (negsuc n, read_ret bytes) s'
        | pos n ↦ done (pos n, read_ret bytes) (advance fd n s')
      ]))
      s

-- `if (fd->fd_offset + writesz > o->o_file->f_size)`
grow_file : (f stop : ℕ) → Serve (Unit {0})
grow_file f stop = change λ s.
    if ltb (s.disk.files f).f_size stop
    then record s { disk = set_file f (record (s.disk.files f) { f_size = stop }) s.disk }
    else s

unfoldable pub serve_write : Fsipc → Serve (ℤ × Page)
unfolding grow_file
serve_write req = with_file unwritten req.req_fileid λ o. λ s.
    let fd = (s.opentab o).o_fd in
    let f = (s.opentab o).o_file in
    let offset = (s.fds fd).fd_offset in
    let writesz = if ltb req.req_n blksize then req.req_n else blksize in
    (do
      grow_file f (offset + writesz)
      r ← on_disk (file_write f req.req_buf writesz offset)
      (λ s'. elim r [
        | negsuc n ↦ done (negsuc n, unwritten) s'
        | pos n ↦ done (pos n, unwritten) (advance fd n s')
      ]))
      s

unfoldable pub serve_stat : Fsipc → Serve (ℤ × Page)
serve_stat req = with_file unwritten req.req_fileid λ o. λ s.
    let f = s.disk.files (s.opentab o).o_file in
    done (pos 0, stat_ret f.f_name f.f_size (f.f_type == ftype_dir)) s

unfoldable pub serve_flush : Fsipc → Serve (ℤ × Page)
serve_flush req =
    with_file unwritten req.req_fileid
      λ o. λ s. (do _ ← on_disk (file_flush (s.opentab o).o_file); give (pos 0, unwritten)) s

unfoldable pub serve_sync : Serve (ℤ × Page)
serve_sync = do _ ← on_disk fs_sync; give (pos 0, unwritten)

-- The reply that ipc_send carries, and the request page.
pub record Reply : Type 0 where
  pub value : ℤ
  pub pg : Option ℕ
  pub perm : ℕ
  pub page : Page

-- sys_page_alloc of an address: its result, and what pageref tells after it.
module _ (sys_page_alloc : (va : ℕ) → (ℕ → ℕ) → ℤ × (ℕ → ℕ)) where
  -- Case 0 of openfile_alloc.
  pub take_new : (i : ℕ) → Serve (ℤ × Option ℕ)
  take_new i s =
      let (r, refs) = sys_page_alloc (s.opentab i).o_fd s.pageref in
      once_mapped i r (record s { pageref = refs })

  -- The loop of openfile_alloc, from entry `i` with `n` rounds left: the result and `*o`.
  alloc_from : (n i : ℕ) → Serve (ℤ × Option ℕ)
  alloc_from zero i = give (neg e_max_open, none)
  alloc_from (suc n) i = λ s.
      let rest = alloc_from n (i + 1) s in
      let refs = s.pageref (s.opentab i).o_fd in
      if refs == 0 then take_new i s else if refs == 1 then hand_out i s else rest

  unfoldable pub openfile_alloc : Serve (ℤ × Option ℕ)
  unfolding alloc_from take_new
  openfile_alloc = alloc_from maxopen 0

  -- The result and `*pg_store`.
  unfoldable pub serve_open : Fsipc → Serve (ℤ × Option ℕ)
  unfolding open_or_create fill_fd truncate
  serve_open req =
      let path = bytes_to (maxpathlen - 1) req.req_path in
      let mode = req.req_omode in
      on_file openfile_alloc λ o.
        on_file (open_or_create path mode)
          λ f. (do truncate f mode; on_file (on_disk (file_open path)) λ g. fill_fd o g mode)

  -- A handler's reply goes out with the request's permissions.
  abbrev pub reply : (perm : ℕ) → Serve (ℤ × Page) → Serve (Option Reply)
  reply perm handler = do
    (r, page) ← handler
    give (some (record { value = r; pg = none; perm = perm; page = page }))

  abbrev pub answer_open : (perm : ℕ) → Fsipc → Serve (Option Reply)
  answer_open perm req = do
    (r, pg) ← serve_open req
    (λ s. elim pg [
      | none ↦ done (some (record { value = r; pg = none; perm = perm; page = unwritten })) s
      | some va ↦
          done (some (record { value = r; pg = some va; perm = fd_perm; page = unwritten })) s
    ])

  -- A round of serve: no reply where the request has no page.
  unfoldable pub serve : (req perm : ℕ) → Fsipc → Serve (Option Reply)
  serve req perm page =
      if bit_and perm 1 == 0
      then give none
      else if req == 1
      then answer_open perm page
      else if req == 2
      then reply perm (serve_set_size page)
      else if req == 3
      then reply perm (serve_read page)
      else if req == 4
      then reply perm (serve_write page)
      else if req == 5
      then reply perm (serve_stat page)
      else if req == 6
      then reply perm (serve_flush page)
      else if req == 8
      then reply perm serve_sync
      else reply perm (give (neg e_inval, unwritten))
