-- ===== src/Socket/Setup.antt =====
-- socket/internet_tcp/server.c and client.c, whole: the arguments, the loops over the addresses of
-- getaddrinfo, and the accept loop and the exchange of Socket/EchoServer.antt after them.
-- The results of the calls are inputs. `fatalError` prints its text and ends the process.
pub mod FirstAddress
use linux_programing_demo.Common.{
  if◌then◌else◌, ℕ, ◌+◌, ◌-◌, Bool, not, ◌||◌, Option, none, some, List, [], ◌∷◌, ◌++◌,
}
use linux_programing_demo.CString.{CString, same_string}
use linux_programing_demo.Socket.ReadLine.{ReadOne}
use linux_programing_demo.Socket.EchoServer.{
  Accepted, Round, serve, ClientEnd, write_failed, read_failed, still_reading, got, client_main,
}

-- `--help` or `-h`
unfoldable pub is_help : CString → Bool
is_help a =
    same_string a (b'-' ∷ b'-' ∷ b'h' ∷ b'e' ∷ b'l' ∷ b'p' ∷ []) || same_string a (b'-' ∷ b'h' ∷ [])

-- An address, of the server: what `socket` returns, -1 being none, and whether `setsockopt` and `bind`
-- succeed.
pub record ServerAddress : Type 0 where
  pub socket : Option ℕ
  pub sets_option : Bool
  pub binds : Bool

-- The loop's end: bound, with the descriptors closed before; out of addresses; or broken off by
-- `setsockopt`.
pub data Bound : Type 0 where
  bound : ℕ → List ℕ → Bound
  no_address : List ℕ → Bound
  option_error : List ℕ → Bound

unfoldable pub bind_first : List ServerAddress → List ℕ → Bound
bind_first [] closed = no_address closed
bind_first (a ∷ rest) closed = elim a.socket [
  | none ↦ bind_first rest closed
  | some fd ↦
      let next = bind_first rest (closed ++ fd ∷ []) in
      if not a.sets_option then option_error closed else if a.binds then bound fd closed else next
]

pub data ServerEnd : Type 0 where
  usage : ServerEnd
  signal_error address_error listen_error : ServerEnd
  setsockopt_error bind_error : List ℕ → ServerEnd
  serving : ℕ → List ℕ → List Round → ServerEnd

-- `main` of the server, of the arguments after `argv[0]`: whether `signal` succeeds, the addresses or
-- none, whether `listen` succeeds, the bytes of the new `buffer`, and the connections.
unfoldable pub server_main :
    List CString → Bool → Option (List ServerAddress) → Bool → List ℕ → List Accepted → ServerEnd
unfolding bind_first is_help
server_main [] signals addresses listens buffer accepted = usage
server_main (port ∷ args) signals addresses listens buffer accepted =
    if is_help port then usage else if not signals then signal_error else elim addresses [
      | none ↦ address_error
      | some l ↦ elim (bind_first l []) [
        | no_address closed ↦ bind_error closed
        | option_error closed ↦ setsockopt_error closed
        | bound fd closed ↦
            if listens then serving fd closed (serve buffer accepted) else listen_error
      ]
    ]

-- An address, of the client: what `socket` returns, and whether `connect` succeeds.
pub record ClientAddress : Type 0 where
  pub socket : Option ℕ
  pub connects : Bool

-- The loop of the client: the connected descriptor, and those closed before.
unfoldable pub connect_any : List ClientAddress → List ℕ → Option ℕ × List ℕ
connect_any [] closed = (none, closed)
connect_any (a ∷ rest) closed = elim a.socket [
  | none ↦ connect_any rest closed
  | some fd ↦
      let next = connect_any rest (closed ++ fd ∷ []) in
      if a.connects then (some fd, closed) else next
]

-- `main` of the client: the usage, a fatal error, or the answer that is printed; with the
-- descriptors that are closed.
pub data ClientRun : Type 0 where
  client_usage : ClientRun
  lookup_error : ClientRun
  connect_error : List ℕ → ClientRun
  exchange_error : ClientEnd → List ℕ → ClientRun
  printed : ℕ → List ℕ → List ℕ → ClientRun

-- What follows the exchange; the end `got` closes the descriptor.
unfoldable pub after_exchange : ℕ → List ℕ → ClientEnd → ClientRun
after_exchange fd closed (got size buffer) = printed size buffer (closed ++ fd ∷ [])
after_exchange fd closed e = exchange_error e closed

unfoldable pub run_client :
    List CString
    → Option (List ClientAddress)
    → Option ℕ
    → Option ℕ
    → List ℕ
    → (List ℕ → List ReadOne)
    → ClientRun
unfolding connect_any is_help after_exchange
run_client (host ∷ port ∷ msg ∷ args) addresses k1 k2 buffer peer =
    if is_help host then client_usage else elim addresses [
      | none ↦ lookup_error
      | some l ↦ elim (connect_any l []).0 [
        | none ↦ connect_error (connect_any l []).1
        | some fd ↦ after_exchange fd (connect_any l []).1 (client_main msg k1 k2 buffer peer).1
      ]
    ]
run_client _ addresses k1 k2 buffer peer = client_usage
