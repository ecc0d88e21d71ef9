-- ===== src/Socket/EchoServer/RoundTrip.antt =====
-- A message through client and server and back.
use linux_programing_demo.Common.{
  ◌==◌, length, take, All, length-append, append-nil, take_all, ℕ, zero, suc, ◌+◌, ◌≤◌, min, ◌≡◌,
  refl, ap, ◌∙◌, ◌≢◌, true, false, some, List, [], ◌∷◌, ◌++◌, map, arith,
}
use linux_programing_demo.Socket.ReadLine.{ReadOne, byte, eof, newline}
use linux_programing_demo.Socket.ReadLine.Promise.{line, scan, text_in, read_line_lem}
use linux_programing_demo.Socket.EchoServer.{
  buff_size, Accepted, client, Round, answered, c_string, write_out, eq_ℤ, serve_one, ClientEnd,
  got, client_result, client_main, client_send,
}
use linux_programing_demo.Socket.EchoServer.Replies.{
  serve_one-reply, until_nul, c_string-text, reply,
}

-- A byte of a message: neither NUL nor newline.
abbrev pub IsTextByte : ℕ → Type 0
IsTextByte c = (c ≢ 0) × (c ≢ newline)

scan-text :
    (msg : List ℕ) (later : List ReadOne)
    → All IsTextByte msg
    → scan (map byte (msg ++ newline ∷ []) ++ later) ≡ line (msg ++ newline ∷ []) later
unfolding scan
scan-text [] later h = refl
scan-text (c ∷ msg) later h =
    let other : (c == newline) ≡ false = ground (arith, h.0.1) in
    rw other (rw (scan-text msg later h.1))

until_nul-text :
    (msg : List ℕ) → All IsTextByte msg → until_nul (msg ++ newline ∷ []) ≡ msg ++ newline ∷ []
unfolding until_nul
until_nul-text [] h = refl
until_nul-text (zero ∷ msg) h = absurd (h.0.0 refl)
until_nul-text (suc c ∷ msg) h = rw (until_nul-text msg h.1)

-- The bytes that the server sends, as the client reads them: then the server closes.
abbrev pub answer_reads : Round → List ReadOne
answer_reads (answered sent bad) = map byte sent ++ eof ∷ []
answer_reads _ = eof ∷ []

-- The connection of a client that has sent `sent` and waits; the kernel takes every answer whole.
abbrev pub request : List ℕ → Accepted
request sent = client (record { reads = map byte sent; takes = some 64 })

-- The message `msg` through a client and a server with the buffers `cbuf` and `sbuf`: what the client
-- sends is what the server reads, and what the server answers is what the client reads.
pub exchange : List ℕ → List ℕ → List ℕ → List ℕ × ClientEnd
exchange msg sbuf cbuf =
    client_main msg (some (length msg)) (some 1) cbuf
      (λ sent. answer_reads (serve_one sbuf (request sent)).1)

module _ (msg : List ℕ) (text : All IsTextByte msg) (fits : length msg ≤ 62) where
  abbrev whole : List ℕ
  whole = msg ++ newline ∷ []

  length-whole : length whole ≡ suc (length msg)
  length-whole = omega (arith, length-append msg (newline ∷ []))

  take63-whole : take 63 whole ≡ whole
  take63-whole = take_all 63 whole (omega (arith, length-whole))

  server_reply : reply (request whole) ≡ answered whole false
  unfolding write_out eq_ℤ
  server_reply =
      rw
        (
          rw (append-nil (map byte whole)) at (scan-text msg [] text),
          take63-whole,
          until_nul-text msg text,
        )
        (rw (take_all 64 whole (omega (arith, length-whole))) (
          let sent_all : (min 64 (length whole) == length whole) ≡ true =
            ground (arith, length-whole) in
          rw sent_all))

  sent_whole : client_send msg (some (length msg)) (some 1) ≡ (whole, true)
  unfolding client_send write_out eq_ℤ
  sent_whole =
      let all_sent : (min (length msg) (length msg) == length msg) ≡ true = ground arith in
      rw (all_sent, take_all (length msg) msg (omega arith)) refl

  client_end :
      (cbuf : List ℕ) (peer : List ℕ → List ReadOne)
      → length cbuf ≡ buff_size
      → peer whole ≡ map byte whole ++ eof ∷ []
      → client_main msg (some (length msg)) (some 1) cbuf peer
        ≡ (whole, got (suc (length msg)) (text_in 64 whole cbuf))
  unfolding client_main
  client_end cbuf peer size answers =
      rw
        (
          sent_whole,
          answers,
          read_line_lem buff_size cbuf (map byte whole ++ eof ∷ []) (omega arith) size,
          scan-text msg (eof ∷ []) text,
        )
        (rw take63-whole (rw (length-whole, client_result) refl))

-- A message of at most 62 bytes, none of them NUL or newline, comes back to the client whole, the kernel
-- taking every write: the client sends the message and a newline, the server is given just what it
-- sends, and the client returns from `readLine` with the message and a newline as the C string in its
-- buffer, whatever the two buffers held before.
pub exchange_echo :
    (msg sbuf cbuf : List ℕ)
    → All IsTextByte msg
    → length msg ≤ 62
    → length sbuf ≡ buff_size
    → length cbuf ≡ buff_size
    → (buf : List ℕ) × (exchange msg sbuf cbuf ≡ (msg ++ newline ∷ [], got (length msg + 1) buf))
      × (c_string buf ≡ some (msg ++ newline ∷ []))
unfolding exchange
exchange_echo msg sbuf cbuf text fits size size' =
    let whole_msg = msg ++ newline ∷ [] in
    let answers : answer_reads (serve_one sbuf (request whole_msg)).1
        ≡ map byte whole_msg ++ eof ∷ [] =
      rw ((serve_one-reply sbuf (request whole_msg) size).0, server_reply msg text fits) refl in
    (
      text_in 64 whole_msg cbuf,
      client_end msg text fits cbuf (λ sent. answer_reads (serve_one sbuf (request sent)).1) size'
            answers
          ∙ ap (λ k. (whole_msg, got k (text_in 64 whole_msg cbuf))) (omega arith),
      rw (take63-whole msg text fits) (
          c_string-text whole_msg cbuf (omega (arith, length-whole msg text fits))
          ∙ ap some (until_nul-text msg text)),
    )
