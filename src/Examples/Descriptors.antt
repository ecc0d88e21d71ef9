-- ===== src/Examples/Descriptors.antt =====
-- Inputs of io/select, directory/file_tree_walk and of the set-up in socket/internet_tcp.
use linux_programing_demo.Common.{
  ◌==◌, ℕ, ◌≡◌, refl, Bool, true, false, ◌||◌, none, some, List, [], ◌∷◌, ◌++◌, arith,
}
use linux_programing_demo.CString.{CString, same_string}
use linux_programing_demo.Io.Epoll.{ReadResult, data_read}
use linux_programing_demo.Io.Select
use linux_programing_demo.Io.Select.Ready.{reads_of, main-reads}
use linux_programing_demo.FileInfo.Stat.{Stat}
use linux_programing_demo.FileInfo.Walk.{Trees, nil, cons, dir, entry, ftw_f, git_name, main}
use linux_programing_demo.FileInfo.Walk.Pruned.{bases, names_all, prune_all, main-names}
use linux_programing_demo.Socket.EchoServer.{serve}
use linux_programing_demo.Socket.Setup
use linux_programing_demo.Socket.Setup.FirstAddress.{server_main-address}

-- The pipe and the file are ready.
abbrev ready : ℕ → Bool
ready fd = fd == 3 || fd == 4

abbrev reads : ℕ → ReadResult
reads fd = data_read (b'1' ∷ [])

ready-watched : (fd : ℕ) → ready fd ≡ true → (Select.watch (some 3) 4).fds fd ≡ true
unfolding Select.watch
ready-watched fd h = ground arith

main-reads_example : reads_of 4 (Select.main (some 3) 4 5 (Select.ready ready) reads).lines ≡ 1
main-reads_example = main-reads (some 3) 4 5 ready reads ready-watched 4

abbrev file : Stat
file = record {
  st_mode = 33188;
  st_ino = 1;
  st_nlink = 1;
  st_blksize = 4096;
  st_size = 5;
  st_blocks = 8;
  st_ctime = 0;
  st_atime = 0;
  st_mtime = 0;
}

abbrev tree : Trees
tree =
    cons (dir git_name file (cons (entry (b'h' ∷ []) file ftw_f) nil))
      (cons (entry (b'm' ∷ []) file ftw_f) nil)

main-names_example : bases (main file tree) ≡ (b'.' ∷ b'.' ∷ []) ∷ names_all (prune_all tree)
main-names_example = main-names file tree

abbrev port : CString
port = b'8' ∷ b'0' ∷ []

abbrev in_use : List Setup.ServerAddress
in_use =
    record { socket = none; sets_option = true; binds = true }
    ∷ record { socket = some 3; sets_option = true; binds = false }
    ∷ []

port-number : Setup.is_help port ≡ false
unfolding Setup.is_help same_string
port-number = refl

abbrev good_address : Bool → Bool → Setup.ServerAddress
good_address o b = record { socket = some 4; sets_option = o; binds = b }

server_main-address_example :
    (Setup.server_main (port ∷ []) true (some (in_use ++ good_address true true ∷ [])) true [] []
      ≡ Setup.serving 4 (3 ∷ []) (serve [] []))
    × ((b : Bool)
        → Setup.server_main (port ∷ []) true (some (in_use ++ good_address false b ∷ [])) true [] []
          ≡ Setup.setsockopt_error (3 ∷ []))
    × (Setup.server_main (port ∷ []) true (some in_use) true [] [] ≡ Setup.bind_error (3 ∷ []))
server_main-address_example =
    server_main-address port [] in_use [] 4 [] [] port-number (refl, (refl, tt))
