-- ===== src/User/File/Tests.antt =====
-- The theorem on readn at one server.
use adv_os_jos.Prelude.{ℕ, ◌≡◌, refl, true, [], ℤ, pos, List}
use adv_os_jos.Fs.Data.Mapped.{contents}
use adv_os_jos.Fs.Data.Tests.{disk, whole}
use adv_os_jos.Fs.Serv.{
  Server, Serve, done, give, Page, unwritten, zero_fd, serve_init, openfile_lookup, advance,
}
use adv_os_jos.Fs.Serv.Tests.{busy_server, fresh_page}
use adv_os_jos.User.Fd.{fd_lookup}
use adv_os_jos.User.File.{Dev, readn}
use adv_os_jos.User.File.Read.{IsOpen, readn_lem}

-- The file 5 is open at the offset 4090, behind the descriptor 0.
abbrev open_server : Server
open_server = record busy_server {
  fds = λ va. record zero_fd { fd_offset = 4090; fd_dev_id = 102; fd_file_id = 5 };
}

is_open : IsOpen (λ d. true) (λ t. true) (λ fd. 0xd0005000) (pos 0) 0xd0000000 5 4090 open_server
unfolding fd_lookup openfile_lookup serve_init
is_open = record {
  number = refl;
  device = refl;
  mode = refl;
  file_id = refl;
  offset = refl;
  lookup = refl;
  same_page = refl;
  whole = whole;
}

abbrev no_read : Dev → (fd n : ℕ) → Serve (ℤ × List ℕ)
no_read dev fd n = give (pos 0, [])

abbrev no_write : Dev → (fd : ℕ) (buf : ℕ → ℕ) (n : ℕ) → Serve ℤ
no_write dev fd buf n = give (pos 0)

abbrev no_stat : Dev → (fd : ℕ) → Serve (ℤ × Page)
no_stat dev fd = give (pos 0, unwritten)

-- The 910 bytes that are left of 5000.
readn_example :
    readn fresh_page
      (λ d. true)
      (λ t. true)
      (λ fd. 0xd0005000)
      no_read
      no_write
      no_stat
      (pos 0)
      6000
      open_server
    ≡ done (pos 910, contents disk 0 910 4090) (advance 0xd0005000 910 open_server)
unfolding serve_init
readn_example =
    readn_lem fresh_page (λ d. true) (λ t. true) (λ fd. 0xd0005000) no_read no_write no_stat (pos 0)
      0xd0000000 5 4090 6000 open_server is_open
