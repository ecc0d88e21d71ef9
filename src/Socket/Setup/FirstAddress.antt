-- ===== src/Socket/Setup/FirstAddress.antt =====
-- Which address the TCP programs use.
use linux_programing_demo.Common.{
  Option-cases, All, ℕ, ◌≡◌, refl, ap, inl, inr, Bool, true, false, not, ◌&&◌, Option, none, some,
  List, [], ◌∷◌, ◌++◌, append_assoc, append-nil, arith,
}
use linux_programing_demo.CString.{CString}
use linux_programing_demo.Socket.ReadLine.{ReadOne}
use linux_programing_demo.Socket.EchoServer.{Accepted, serve, client_main}
use linux_programing_demo.Socket.Setup.{
  is_help, ServerAddress, no_address, bind_first, setsockopt_error, bind_error, serving,
  server_main, ClientAddress, connect_any, after_exchange, run_client, connect_error,
}

-- The loop goes on after these: no socket, or a socket that is set up and does not bind.
abbrev pub is_passed : ServerAddress → Bool
is_passed a = elim a.socket [ none ↦ true | some fd ↦ a.sets_option && not a.binds ]

abbrev pub IsPassed : ServerAddress → Type 0
IsPassed a = is_passed a ≡ true

abbrev pub fd_list : Option ℕ → List ℕ
fd_list none = []
fd_list (some fd) = fd ∷ []

-- The sockets that were opened for a list of addresses.
abbrev pub opened : List ServerAddress → List ℕ
opened [] = []
opened (a ∷ rest) = fd_list a.socket ++ opened rest

bind_first-passes :
    (before rest : List ServerAddress) (closed : List ℕ)
    → All IsPassed before
    → bind_first (before ++ rest) closed ≡ bind_first rest (closed ++ opened before)
unfolding bind_first
bind_first-passes [] rest closed h = ground (arith, append-nil closed)
bind_first-passes (a ∷ before) rest closed h = elim (Option-cases a.socket) [
  | inr (fd, e) ↦ ground (
    arith,
    e,
    h.0,
    bind_first-passes before rest (closed ++ fd ∷ []) h.1,
    append_assoc closed (fd ∷ []) (opened before),
  )
  | inl e ↦ ground (arith, e, bind_first-passes before rest closed h.1)
]

-- The addresses before the first one that does not fail at `socket` or `bind` are passed over, with every
-- socket opened for them closed, in order, and none else; that one decides: the server accepts on it,
-- whatever addresses follow, or its setsockopt ends the program; and if there is none, the program ends
-- with all sockets closed.
pub server_main-address :
    (port : CString) (args : List CString) (before after : List ServerAddress) (fd : ℕ)
    (buffer : List ℕ) (accepted : List Accepted)
    → is_help port ≡ false
    → All IsPassed before
    → (server_main
          (port ∷ args)
          true
          (some (before ++ record { socket = some fd; sets_option = true; binds = true } ∷ after))
          true
          buffer
          accepted
        ≡ serving fd (opened before) (serve buffer accepted))
      × ((b : Bool)
          → server_main
              (port ∷ args)
              true
              (some (before ++ record { socket = some fd; sets_option = false; binds = b } ∷ after))
              true
              buffer
              accepted
            ≡ setsockopt_error (opened before))
      × (server_main (port ∷ args) true (some before) true buffer accepted
          ≡ bind_error (opened before))
unfolding server_main
server_main-address port args before after fd buffer accepted h passed =
    let none_left : bind_first before [] ≡ no_address (opened before) =
      rw (append-nil before) at (bind_first-passes before [] [] passed) in
    (
      rw (h, bind_first-passes before _ [] passed) refl,
      λ b. rw (h, bind_first-passes before _ [] passed) refl,
      rw (h, none_left) refl,
    )

-- The loop of the client goes on after no socket, or a socket that does not connect.
abbrev pub is_skipped : ClientAddress → Bool
is_skipped a = elim a.socket [ none ↦ true | some fd ↦ not a.connects ]

abbrev pub IsSkipped : ClientAddress → Type 0
IsSkipped a = is_skipped a ≡ true

abbrev pub tried : List ClientAddress → List ℕ
tried [] = []
tried (a ∷ rest) = fd_list a.socket ++ tried rest

connect_any-skips :
    (before rest : List ClientAddress) (closed : List ℕ)
    → All IsSkipped before
    → connect_any (before ++ rest) closed ≡ connect_any rest (closed ++ tried before)
unfolding connect_any
connect_any-skips [] rest closed h = ground (arith, append-nil closed)
connect_any-skips (a ∷ before) rest closed h = elim (Option-cases a.socket) [
  | inr (fd, e) ↦ ground (
    arith,
    e,
    h.0,
    connect_any-skips before rest (closed ++ fd ∷ []) h.1,
    append_assoc closed (fd ∷ []) (tried before),
  )
  | inl e ↦ ground (arith, e, connect_any-skips before rest closed h.1)
]

-- The client talks through the first address that connects, with every socket of the addresses before
-- closed and none else; if none connects it ends with all of them closed.
pub run_client-address :
    (host port msg : CString) (before after : List ClientAddress) (fd : ℕ) (k1 k2 : Option ℕ)
    (buffer : List ℕ) (peer : List ℕ → List ReadOne)
    → is_help host ≡ false
    → All IsSkipped before
    → (run_client
          (host ∷ port ∷ msg ∷ [])
          (some (before ++ record { socket = some fd; connects = true } ∷ after))
          k1
          k2
          buffer
          peer
        ≡ after_exchange fd (tried before) (client_main msg k1 k2 buffer peer).1)
      × (run_client (host ∷ port ∷ msg ∷ []) (some before) k1 k2 buffer peer
          ≡ connect_error (tried before))
unfolding run_client
run_client-address host port msg before after fd k1 k2 buffer peer h skipped =
    let none_left : connect_any before [] ≡ (none, tried before) =
      rw (append-nil before) at (connect_any-skips before [] [] skipped) in
    let found : connect_any (before ++ record { socket = some fd; connects = true } ∷ after) []
        ≡ (some fd, tried before) =
      connect_any-skips before _ [] skipped in
    (rw (h, found, ap (λ c. c.1) found) refl, rw (h, none_left, ap (λ c. c.1) none_left) refl)
