-- ===== src/Socket/Datagram.antt =====
-- socket/internet_udp and socket/unix_domain_udp: a client that sends its arguments one by one and
-- waits for the answer to each, and the server that sends each datagram back. Both keep one buffer
-- of 64 bytes.
pub mod Echo
use linux_programing_demo.Common.{length, take, overlay, ℕ, ◌-◌, List, [], ◌∷◌}

-- What becomes of one exchange: a call fails, of the client or of the server, whose process then
-- ends, or both datagrams arrive.
pub data Trip : Type 0 where
  send_error : Trip  -- `sendto` of the client
  server_receive_error : Trip
  server_send_error : Trip
  receive_error : Trip  -- `recvfrom` of the client
  arrives : Trip

-- How the client ends: its exit status, and the responses that it has printed; a client whose
-- answer never comes waits.
pub data ClientEnd : Type 0 where
  exits : ℕ → List (List ℕ) → ClientEnd
  waits : List (List ℕ) → ClientEnd

-- `recvfrom(sfd, buffer, g_buffSize, ...)`: the buffer after it, and the size.
pub receive : List ℕ → List ℕ → List ℕ × ℕ
receive buffer datagram = (overlay (take 64 datagram) buffer, length (take 64 datagram))

-- One round of a server: its buffer after it, and the datagram that it sends back.
pub server_round : List ℕ → List ℕ → List ℕ × List ℕ
unfolding receive
server_round buffer datagram =
    let (buffer', recv_size) = receive buffer datagram in (buffer', take recv_size buffer')

-- What the client prints of an answer, with its buffer after it.
pub client_print : List ℕ → List ℕ → List ℕ × List ℕ
unfolding receive
client_print buffer answer =
    let (buffer', recv_size) = receive buffer answer in (buffer', take recv_size buffer')

-- A response in front of those that follow.
abbrev pub print_first : List ℕ → ClientEnd → ClientEnd
print_first r (exits status rs) = exits status (r ∷ rs)
print_first r (waits rs) = waits (r ∷ rs)

-- The loop of the client over its messages, with the buffers of both programs.
pub client_loop : List ℕ → List ℕ → List (List ℕ × Trip) → ClientEnd
unfolding server_round client_print
client_loop svr clt [] = exits 0 []
client_loop svr clt ((msg, send_error) ∷ more) = exits 1 []
client_loop svr clt ((msg, server_receive_error) ∷ more) = waits []
client_loop svr clt ((msg, server_send_error) ∷ more) = waits []
client_loop svr clt ((msg, receive_error) ∷ more) = exits 1 []
client_loop svr clt ((msg, arrives) ∷ more) =
    let (svr', answer) = server_round svr msg in
    let (clt', response) = client_print clt answer in
    print_first response (client_loop svr' clt' more)
