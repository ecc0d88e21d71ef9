-- ===== src/Socket/Datagram/Echo.antt =====
-- The responses that the datagram client prints.
use linux_programing_demo.Common.{
  length, take, length-take, take_all, overlay, length-overlay, ℕ, ◌≤◌, ◌≡◌, refl, ap, ◌∙◌, List,
  [], ◌∷◌, arith,
}
use linux_programing_demo.Socket.Datagram.{
  Trip, send_error, server_receive_error, server_send_error, receive_error, arrives, ClientEnd,
  exits, waits, receive, server_round, client_print, print_first, client_loop,
}

-- Without buffers: each message up to its 64th byte, up to the first exchange that fails.
abbrev pub echoes : List (List ℕ × Trip) → ClientEnd
echoes [] = exits 0 []
echoes ((msg, send_error) ∷ more) = exits 1 []
echoes ((msg, server_receive_error) ∷ more) = waits []
echoes ((msg, server_send_error) ∷ more) = waits []
echoes ((msg, receive_error) ∷ more) = exits 1 []
echoes ((msg, arrives) ∷ more) = print_first (take 64 msg) (echoes more)

take-overlay : (d buf : List ℕ) → length d ≤ length buf → take (length d) (overlay d buf) ≡ d
take-overlay [] buf h = refl
take-overlay (x ∷ d) [] h = absurd (omega (arith, h))
take-overlay (x ∷ d) (b ∷ buf) h = ap (λ r. x ∷ r) (take-overlay d buf (omega (arith, h)))

pub server_round-answer :
    (buf msg : List ℕ) → length buf ≡ 64 → (server_round buf msg).1 ≡ take 64 msg
unfolding server_round receive
server_round-answer buf msg room =
    take-overlay (take 64 msg) buf (omega (arith, room, length-take 64 msg))

client_print-response :
    (buf answer : List ℕ) → length buf ≡ 64 → (client_print buf answer).1 ≡ take 64 answer
unfolding client_print receive
client_print-response buf answer room =
    take-overlay (take 64 answer) buf (omega (arith, room, length-take 64 answer))

pub server_round-length : (buf msg : List ℕ) → length (server_round buf msg).0 ≡ length buf
unfolding server_round receive
server_round-length buf msg = length-overlay (take 64 msg) buf

client_print-length : (buf answer : List ℕ) → length (client_print buf answer).0 ≡ length buf
unfolding client_print receive
client_print-length buf answer = length-overlay (take 64 answer) buf

response :
    (svr clt msg : List ℕ)
    → length svr ≡ 64
    → length clt ≡ 64
    → (client_print clt (server_round svr msg).1).1 ≡ take 64 msg
response svr clt msg rs rc =
    client_print-response clt (server_round svr msg).1 rc
    ∙ ap (take 64) (server_round-answer svr msg rs)
    ∙ take_all 64 (take 64 msg) (omega (arith, length-take 64 msg))

-- The client prints the echo of each message, cut to 64 bytes, in order, up to the first exchange
-- that fails, whatever the two buffers of 64 bytes hold: no byte of an earlier message comes back.
pub client_loop-echoes :
    (svr clt : List ℕ) (msgs : List (List ℕ × Trip))
    → length svr ≡ 64
    → length clt ≡ 64
    → client_loop svr clt msgs ≡ echoes msgs
unfolding client_loop
client_loop-echoes svr clt [] rs rc = refl
client_loop-echoes svr clt ((msg, send_error) ∷ more) rs rc = refl
client_loop-echoes svr clt ((msg, server_receive_error) ∷ more) rs rc = refl
client_loop-echoes svr clt ((msg, server_send_error) ∷ more) rs rc = refl
client_loop-echoes svr clt ((msg, receive_error) ∷ more) rs rc = refl
client_loop-echoes svr clt ((msg, arrives) ∷ more) rs rc =
    let answer = (server_round svr msg).1 in
    ap (λ r. print_first r (client_loop (server_round svr msg).0 (client_print clt answer).0 more))
      (response svr clt msg rs rc)
    ∙ ap (print_first (take 64 msg)) (
        client_loop-echoes (server_round svr msg).0 (client_print clt answer).0 more
          (server_round-length svr msg ∙ rs) (client_print-length clt answer ∙ rc))
