-- ===== src/Socket/EchoServer/Replies.antt =====
-- The echo server answers each client from that client's own bytes.
use linux_programing_demo.Common.{
  ◌==◌, Bool-cases, length, take, length-take, overlay, length-overlay, pos, ℕ, zero, suc, ◌-◌, ◌<◌,
  ◌≡◌, refl, ◌∙◌, inl, inr, not, Option, none, some, List, [], ◌∷◌, ◌++◌, arith,
}
use linux_programing_demo.Socket.ReadLine.{ReadOne, byte, eintr, fail, eof, returned, newline}
use linux_programing_demo.Socket.ReadLine.Promise.{
  Scan, waiting as unfinished, failed, line, ended, scan, cons_scan, promised, text_in,
  read_line_lem,
}
use linux_programing_demo.Socket.EchoServer.{
  buff_size, Accepted, accept_error, client, Round, not_accepted, skipped, answered, waiting,
  c_string, write_out, eq_ℤ, answer, after_read, serve_one, proceed, serve,
}

-- The bytes before the first NUL.
unfoldable pub until_nul : List ℕ → List ℕ
until_nul [] = []
until_nul (zero ∷ xs) = []
until_nul (suc c ∷ xs) = suc c ∷ until_nul xs

pub c_string-text :
    (xs buf : List ℕ)
    → length xs < length buf
    → c_string (overlay (xs ++ 0 ∷ []) buf) ≡ some (until_nul xs)
unfolding c_string until_nul
c_string-text [] [] h = absurd (omega arith)
c_string-text [] (b ∷ buf) h = refl
c_string-text (x ∷ xs) [] h = absurd (omega arith)
c_string-text (zero ∷ xs) (b ∷ buf) h = refl
c_string-text (suc c ∷ xs) (b ∷ buf) h = rw (c_string-text xs buf (omega arith))

-- What a client that sent the line `l` is answered.
abbrev pub echo : Option ℕ → List ℕ → Round
echo takes l =
    let (sent, ret) = write_out takes (until_nul (take 63 l)) in
    answered sent (not (eq_ℤ ret (pos (length (take 63 l)))))

abbrev answer_to_scan : Option ℕ → Scan → Round
answer_to_scan takes unfinished = waiting
answer_to_scan takes (failed e l rest) = skipped
answer_to_scan takes (line l rest) = echo takes l
answer_to_scan takes (ended [] rest) = skipped
answer_to_scan takes (ended (c ∷ l) rest) = echo takes (c ∷ l)

-- The answer to a connection, by what its stream holds.
abbrev pub reply : Accepted → Round
reply accept_error = not_accepted
reply (client c) = answer_to_scan c.takes (scan c.reads)

-- The answers to connections in turn, up to one whose client keeps the server waiting.
pub replies : List Accepted → List Round
replies [] = []
replies (a ∷ more) = proceed (reply a) (replies more)

-- A line that ends by a newline holds it.
abbrev LineNonempty : Scan → Type 0
LineNonempty (line l rest) = 0 < length l
LineNonempty _ = Unit

cons_scan-nonempty : (c : ℕ) (s : Scan) → LineNonempty (cons_scan c s)
cons_scan-nonempty c unfinished = tt
cons_scan-nonempty c (failed e l rest) = tt
cons_scan-nonempty c (line l rest) = omega arith
cons_scan-nonempty c (ended l rest) = tt

scan-nonempty : (es : List ReadOne) → LineNonempty (scan es)
unfolding scan
scan-nonempty [] = tt
scan-nonempty (eintr ∷ es) = scan-nonempty es
scan-nonempty (fail e ∷ es) = tt
scan-nonempty (eof ∷ es) = tt
scan-nonempty (byte c ∷ es) = elim (Bool-cases (c == newline)) [
  | inl nl ↦ rw nl (omega arith)
  | inr other ↦ rw other (cons_scan-nonempty c (scan es))
]

length-take63-pos : (l : List ℕ) → 0 < length l → length (take 63 l) ≡ suc (length (take 63 l) - 1)
length-take63-pos l h = omega (arith, length-take 63 l)

after_read-text :
    (takes : Option ℕ) (buf l : List ℕ) (rest : List ReadOne)
    → length buf ≡ buff_size
    → 0 < length l
    → after_read takes buf (returned (pos (length (take 63 l))) none (some (text_in 64 l buf)) rest)
      ≡ (text_in 64 l buf, echo takes l)
unfolding after_read answer
after_read-text takes buf l rest size h =
    rw (length-take63-pos l h)
      (rw (c_string-text (take 63 l) buf (omega (arith, length-take 63 l)), answer) refl)

-- The two halves of what a round does, by what the stream holds.
abbrev RoundIs : Option ℕ → List ℕ → Scan → Type 0
RoundIs takes buf s =
    ((after_read takes buf (promised buff_size buf [] s)).1 ≡ answer_to_scan takes s)
    × (length (after_read takes buf (promised buff_size buf [] s)).0 ≡ buff_size)

text_round :
    (takes : Option ℕ) (buf l : List ℕ) (rest : List ReadOne)
    → length buf ≡ buff_size
    → 0 < length l
    → let r =
        after_read takes buf
          (returned (pos (length (take 63 l))) none (some (text_in 64 l buf)) rest) in
      (r.1 ≡ echo takes l) × (length r.0 ≡ buff_size)
text_round takes buf l rest size h =
    rw (after_read-text takes buf l rest size h)
      (refl, length-overlay (take 63 l ++ 0 ∷ []) buf ∙ size)

round_by_scan :
    (takes : Option ℕ) (buf : List ℕ) (s : Scan)
    → length buf ≡ buff_size
    → LineNonempty s
    → RoundIs takes buf s
unfolding after_read
round_by_scan takes buf unfinished size ne = (refl, size)
round_by_scan takes buf (failed e l rest) size ne = (refl, length-overlay (take 63 l) buf ∙ size)
round_by_scan takes buf (line l rest) size ne = text_round takes buf l rest size ne
round_by_scan takes buf (ended [] rest) size ne = (refl, size)
round_by_scan takes buf (ended (c ∷ l) rest) size ne =
    text_round takes buf (c ∷ l) rest size (omega arith)

pub serve_one-reply :
    (buf : List ℕ) (a : Accepted)
    → length buf ≡ buff_size
    → ((serve_one buf a).1 ≡ reply a) × (length (serve_one buf a).0 ≡ buff_size)
unfolding serve_one
serve_one-reply buf accept_error size = (refl, size)
serve_one-reply buf (client c) size =
    rw (read_line_lem buff_size buf c.reads (omega arith) size)
      (round_by_scan c.takes buf (scan c.reads) size (scan-nonempty c.reads))

-- The server, whatever `buffer` holds at the start, answers each connection as `reply` says: from
-- the line of that connection alone, at most 63 bytes of it, up to its first NUL; it skips a
-- connection that fails or ends before any byte, and stops only at one that keeps it waiting.
pub serve-replies :
    (buf : List ℕ) (conns : List Accepted)
    → length buf ≡ buff_size
    → serve buf conns ≡ replies conns
unfolding serve replies
serve-replies buf [] size = refl
serve-replies buf (a ∷ more) size =
    let (same, size') = serve_one-reply buf a size in
    rw (same, serve-replies (serve_one buf a).0 more size')
