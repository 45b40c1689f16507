-- ===== src/Fs/Serv/Tests.antt =====
-- The theorems on the file server at one state.
use adv_os_jos.Prelude.{◌≡◌, refl, if◌then◌else◌, ◌==◌, some, pos, update}
use adv_os_jos.Fs.Serv.{Server, done, zero_fd, serve_init, openfile_alloc, alloc_from, handed}
use adv_os_jos.Fs.Serv.Table.{IsTable-serve_init, HandsOut}
use adv_os_jos.Fs.Serv.Alloc.{SysPageAlloc, openfile_lookup-openfile_alloc}
use adv_os_jos.Fs.Data.Tests.{disk}

abbrev pub server : Server
server = serve_init record {
  disk = disk;
  opentab = λ i. record { o_fileid = 0; o_file = 0; o_mode = 0; o_fd = 0 };
  fds = λ va. zero_fd;
  pageref = λ va. if va == 0xd0000000 then 1 else 0;
}

abbrev pub fresh_page : SysPageAlloc
fresh_page va refs = (pos 0, update refs va 1)

hands_out : openfile_alloc fresh_page server ≡ done (pos 1024, some 0) (handed 0 server)
unfolding openfile_alloc alloc_from serve_init update
hands_out = refl

openfile_lookup-openfile_alloc_example : HandsOut server (handed 0 server) (pos 1024) 0
openfile_lookup-openfile_alloc_example =
    openfile_lookup-openfile_alloc fresh_page server (handed 0 server) (pos 1024) 0
      (IsTable-serve_init record {
        disk = disk;
        opentab = λ i. record { o_fileid = 0; o_file = 0; o_mode = 0; o_fd = 0 };
        fds = λ va. zero_fd;
        pageref = λ va. if va == 0xd0000000 then 1 else 0;
      })
      hands_out

-- Each page is shared, and each offset is 4090.
abbrev pub busy_server : Server
busy_server = record server { pageref = λ va. 2; fds = λ va. record zero_fd { fd_offset = 4090 } }
