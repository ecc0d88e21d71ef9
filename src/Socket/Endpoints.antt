-- ===== src/Socket/Endpoints.antt =====
-- The programs of socket/internet_udp, socket/unix_domain_udp and socket/unix_domain_tcp from their
-- start on, over the loops of Socket/Datagram.antt and Socket/StreamCopy.antt. The results of the calls
-- are inputs; `fatalError` ends a program with 1.
pub mod Answers
use linux_programing_demo.Common.{
  if◌then◌else◌, pos, negsuc, ℕ, zero, suc, ◌%◌, ◌^◌, Bool, true, false, ◌&&◌, Option, none, some,
  List, [], ◌∷◌,
}
use linux_programing_demo.CString.{CString, same_string, atoi}
use linux_programing_demo.Socket.Setup.{is_help}
use linux_programing_demo.Socket.Datagram.{Trip, ClientEnd, server_round, client_loop}
use linux_programing_demo.Socket.StreamCopy.{Read, Copied, copy_loop, serve_streams}

-- `atoi` and the test after it, and `htons`: the port that is used, of 16 bits.
unfoldable pub inet_port : CString → Option ℕ
inet_port s = elim (atoi s) [
  | pos zero ↦ none
  | pos (suc n) ↦ some (suc n % 2 ^ 16)
  | negsuc n ↦ none
]

-- The messages of the command line, each with what becomes of it; missing results end the run.
unfoldable pub with_trips : List CString → List Trip → List (List ℕ × Trip)
with_trips [] trips = []
with_trips (m ∷ ms) [] = []
with_trips (m ∷ ms) (t ∷ ts) = (m, t) ∷ with_trips ms ts

-- How the client of a pair of datagram programs ends: with the usage and 0, before its first message
-- with 1, or at the port with the end of its loop.
pub data ClientRun : Type 0 where
  client_usage : ClientRun
  client_stopped : ClientRun
  talked : Option ℕ → ClientEnd → ClientRun

-- `main` of socket/internet_udp/client.c: whether `socket` succeeds, and the two buffers.
unfoldable pub inet_client_main : List CString → Bool → List ℕ → List ℕ → List Trip → ClientRun
unfolding is_help inet_port with_trips
inet_client_main (host ∷ port ∷ msg ∷ more) sockets svr clt trips =
    if is_help host then client_usage else elim (inet_port port) [
      | none ↦ client_stopped
      | some p ↦
          if sockets
          then talked (some p) (client_loop svr clt (with_trips (msg ∷ more) trips))
          else client_stopped
    ]
inet_client_main _ sockets svr clt trips = client_usage

-- `main` of socket/unix_domain_udp/client.c.
unfoldable pub unix_client_main :
    List CString → Bool → Bool → List ℕ → List ℕ → List Trip → ClientRun
unfolding with_trips
unix_client_main msgs sockets binds svr clt trips =
    if sockets && binds
    then talked none (client_loop svr clt (with_trips msgs trips))
    else client_stopped

-- What `recvfrom` of a server gives, none for -1, with whether the `sendto` after it takes all bytes.
pub record Served : Type 0 where
  pub datagram : Option (List ℕ)
  pub sends : Bool

-- The replies of a server, and whether it has ended, with 1.
pub record ServerRun : Type 0 where
  pub replies : List (List ℕ)
  pub ended : Bool

-- The loop of both servers, with the buffer that keeps its bytes.
unfoldable pub server_loop : List ℕ → List Served → ServerRun
server_loop buffer [] = record { replies = []; ended = false }
server_loop buffer (r ∷ more) = elim r.datagram [
  | none ↦ record { replies = []; ended = true }
  | some d ↦
      let rest = server_loop (server_round buffer d).0 more in
      if r.sends
      then record { replies = (server_round buffer d).1 ∷ rest.replies; ended = rest.ended }
      else record { replies = []; ended = true }
]

pub data ServerEnd : Type 0 where
  server_usage : ServerEnd
  server_stopped : ServerEnd
  serving : Option ℕ → ServerRun → ServerEnd

-- `main` of socket/internet_udp/server.c.
unfoldable pub inet_server_main : List CString → Bool → Bool → List ℕ → List Served → ServerEnd
unfolding is_help inet_port server_loop
inet_server_main [] sockets binds buffer received = server_usage
inet_server_main (port ∷ more) sockets binds buffer received =
    if is_help port then server_usage else elim (inet_port port) [
      | none ↦ server_stopped
      | some p ↦
          if sockets && binds
          then serving (some p) (server_loop buffer received)
          else server_stopped
    ]

-- `remove(g_socketName)`: done, ENOENT, or another error.
pub data Removed : Type 0 where
  removed missing remove_error : Removed

abbrev pub may_go_on : Removed → Bool
may_go_on remove_error = false
may_go_on _ = true

-- `main` of socket/unix_domain_udp/server.c.
unfoldable pub unix_server_main : Removed → Bool → Bool → List ℕ → List Served → ServerEnd
unfolding server_loop
unix_server_main r sockets binds buffer received =
    if may_go_on r && (sockets && binds)
    then serving none (server_loop buffer received)
    else server_stopped

-- The stream programs: none for a start that fails, or the copying.
unfoldable pub stream_server_main :
    Removed → Bool → Bool → Bool → List (List (Read × Option ℕ)) → Option Copied
stream_server_main r sockets binds listens connections =
    if may_go_on r && (sockets && (binds && listens))
    then some (serve_streams connections)
    else none

unfoldable pub stream_client_main : Bool → Bool → List (Read × Option ℕ) → Option Copied
stream_client_main sockets connects reads =
    if sockets && connects then some (copy_loop reads) else none
