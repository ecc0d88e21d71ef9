-- ===== src/Socket/EchoServer.antt =====
-- socket/internet_tcp/server.c: the accept loop, which echoes one line to each client, and
-- socket/internet_tcp/client.c: the exchange of a connected client.
-- The address text that the server prints (getnameinfo, snprintf) is not modelled.
pub mod Replies
pub mod RoundTrip
use linux_programing_demo.Common.{
  ◌==◌, if◌then◌else◌, length, take, ℤ, pos, negsuc, ℕ, zero, suc, min, Bool, false, not, Option,
  none, some, List, [], ◌∷◌, ◌++◌,
}
use linux_programing_demo.Socket.ReadLine
use linux_programing_demo.Socket.ReadLine.{
  ReadOne, byte, Outcome, blocked, fault, returned, newline, read_line,
}

abbrev pub buff_size : ℕ
buff_size = 64

-- A connection as `accept` hands it out: the outcomes of the reads from it, and how many bytes
-- the kernel takes of a `write` to it (none: `write` returns -1).
pub record Conn : Type 0 where
  pub reads : List ReadOne
  pub takes : Option ℕ

pub data Accepted : Type 0 where
  accept_error : Accepted
  client : Conn → Accepted

-- What one round of the loop does: "accept error", a request skipped, or an answer with the
-- bytes sent and whether "Error on write" is printed. `waiting`: `readLine` still blocks.
-- `overrun`: an access outside of `buffer`.
pub data Round : Type 0 where
  not_accepted : Round
  skipped : Round
  answered : List ℕ → Bool → Round
  waiting : Round
  overrun : Round

-- The bytes of a C string in an array: none if the array holds no NUL.
pub c_string : List ℕ → Option (List ℕ)
c_string [] = none
c_string (zero ∷ xs) = some []
c_string (suc c ∷ xs) = elim (c_string xs) [ none ↦ none | some s ↦ some (suc c ∷ s) ]

-- `write(fd, s, length s)`: the bytes that leave, and the value returned.
pub write_out : Option ℕ → List ℕ → List ℕ × ℤ
write_out none s = ([], negsuc 0)
write_out (some k) s = (take k s, pos (min k (length s)))

pub eq_ℤ : ℤ → ℤ → Bool
eq_ℤ (pos a) (pos b) = a == b
eq_ℤ (negsuc a) (negsuc b) = a == b
eq_ℤ _ _ = false

-- `if (write(cltFd, buffer, strlen(buffer)) != readSize) fprintf(...)`
pub answer : Option ℕ → ℕ → List ℕ → Round
unfolding c_string write_out eq_ℤ
answer takes size buf = elim (c_string buf) [
  | none ↦ overrun
  | some s ↦ let (sent, ret) = write_out takes s in answered sent (not (eq_ℤ ret (pos size)))
]

-- The part of the round after `readLine`: the buffer that stays, and what was done.
pub after_read : Option ℕ → List ℕ → Outcome → List ℕ × Round
unfolding answer
after_read takes old blocked = (old, waiting)
after_read takes old fault = (old, overrun)
after_read takes old (returned ret e none rest) = (old, overrun)
after_read takes old (returned (negsuc k) e (some buf) rest) = (buf, skipped)
after_read takes old (returned (pos zero) e (some buf) rest) = (buf, skipped)
after_read takes old (returned (pos (suc k)) e (some buf) rest) = (buf, answer takes (suc k) buf)

-- One round of `for (;;)`; `buffer` is declared before the loop and keeps its bytes.
pub serve_one : List ℕ → Accepted → List ℕ × Round
unfolding after_read
serve_one buf accept_error = (buf, not_accepted)
serve_one buf (client c) = after_read c.takes buf (read_line (some buf) buff_size c.reads)

-- A round and those after it; none follows a round that waits or breaks off.
abbrev pub proceed : Round → List Round → List Round
proceed waiting later = waiting ∷ []
proceed overrun later = overrun ∷ []
proceed round later = round ∷ later

-- The rounds for a sequence of accepted connections.
pub serve : List ℕ → List Accepted → List Round
unfolding serve_one
serve buf [] = []
serve buf (a ∷ more) = let (buf', round) = serve_one buf a in proceed round (serve buf' more)

-- The client: `write` of the message, `write` of "\n", `readLine` of the answer.
pub data ClientEnd : Type 0 where
  write_failed : ClientEnd
  read_failed : ClientEnd
  still_reading : ClientEnd
  got : ℕ → List ℕ → ClientEnd

-- The end of the client, by the outcome of `readLine`.
pub client_result : Outcome → ClientEnd
client_result blocked = still_reading
client_result (returned (pos (suc k)) e (some buf) rest) = got (suc k) buf
client_result _ = read_failed

-- The bytes that leave by the two writes, which take `k1` and `k2` bytes at most, and whether both were
-- whole; the second is not made when the first is not.
pub client_send : List ℕ → Option ℕ → Option ℕ → List ℕ × Bool
unfolding write_out eq_ℤ
client_send msg k1 k2 =
    let (out, ret) = write_out k1 msg in
    let (out', ret') = write_out k2 (newline ∷ []) in
    if eq_ℤ ret (pos (length msg)) then (out ++ out', eq_ℤ ret' (pos 1)) else (out, false)

-- The bytes sent, and the end: `peer` gives the outcomes of the reads after what was sent.
pub client_main :
    List ℕ → Option ℕ → Option ℕ → List ℕ → (List ℕ → List ReadOne) → List ℕ × ClientEnd
unfolding client_send client_result
client_main msg k1 k2 buf peer =
    let (sent, ok) = client_send msg k1 k2 in
    (sent, if ok then client_result (read_line (some buf) buff_size (peer sent)) else write_failed)
