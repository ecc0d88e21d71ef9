-- ===== src/Socket/HttpClient.antt =====
-- socket/http_client/main.c and old.c: a HEAD request, and the reading of the answer up to the
-- blank line. The results of the calls are inputs; the output is what is printed and which
-- descriptors are closed.
pub mod Header
pub mod Connecting
use linux_programing_demo.Common.{
  leb, ◌==◌, if◌then◌else◌, set, drop, replicate, ℤ, pos, negsuc, ℕ, zero, suc, ◌+◌, ◌-◌, Bool,
  true, false, Option, none, some, List, [], ◌∷◌, ◌++◌,
}

-- `read(fd, &ch, 1)`.
pub data ReadResult : Type 0 where
  got_char : ℕ → ReadResult
  end_of_file read_error : ReadResult

-- `strncmp(s, t, n) == 0`, a string that ends in front of its NUL too.
abbrev pub same_chars : List ℕ → List ℕ → ℕ → Bool
same_chars s t zero = true
same_chars [] t (suc n) = false
same_chars (x ∷ s) [] (suc n) = false
same_chars (x ∷ s) (y ∷ t) (suc n) =
    let rest = same_chars s t n in if x == y then (if x == 0 then true else rest) else false

abbrev pub blank_line : List ℕ
blank_line = 13 ∷ 10 ∷ 13 ∷ 10 ∷ []

-- The test after the byte at `i` is stored.
pub header_ends : List ℕ → ℕ → Bool
header_ends buffer i = if leb 3 i then same_chars (drop (i - 3) buffer) blank_line 4 else false

-- What is printed, and how many times `read` has been called.
pub record Result : Type 0 where
  pub printed : List ℕ
  pub calls : ℕ

-- The loop from `i` on, of `left` rounds at most: `reads k` is the result of call `k`, one call in
-- every round.
pub read_header : ℕ → ℕ → (ℕ → ReadResult) → List ℕ → List ℕ → Result
unfolding header_ends
read_header zero i reads buffer out = record { printed = out; calls = i }
read_header (suc left) i reads buffer out = elim (reads i) [
  | read_error ↦ record { printed = out; calls = i + 1 }
  | end_of_file ↦ read_header left (i + 1) reads buffer out
  | got_char ch ↦
      let buffer' = set buffer i ch in
      let rest = read_header left (i + 1) reads buffer' (out ++ ch ∷ []) in
      if header_ends buffer' i then record { printed = out ++ ch ∷ []; calls = i + 1 } else rest
]

-- The loop of both programs.
pub read_answer : (ℕ → ReadResult) → Result
unfolding read_header
read_answer reads = read_header 1024 0 reads (replicate 1024 0) []

-- An address of the list of `getaddrinfo`: what `socket` returns, -1 being none, and whether
-- `connect` succeeds.
pub record Address : Type 0 where
  pub socket : Option ℕ
  pub connects : Bool

-- The descriptor that is connected, with those closed before.
pub connect_first : List Address → List ℕ → Option ℕ × List ℕ
connect_first [] closed = (none, closed)
connect_first (a ∷ rest) closed = elim a.socket [
  | none ↦ connect_first rest closed
  | some fd ↦
      let tried = connect_first rest (fd ∷ closed) in
      if a.connects then (some fd, closed) else tried
]

-- What the program returns, prints of the answer and closes.
pub record End : Type 0 where
  pub exit : ℤ
  pub answer : List ℕ
  pub closed : List ℕ

-- After `connect`: the request is `msg_len` bytes, `sent` the result of `write`.
pub ask : ℕ → List ℕ → ℕ → ℤ → (ℕ → ReadResult) → End
unfolding read_answer
ask fd closed msg_len sent reads = elim sent [
  | negsuc k ↦ record { exit = negsuc 0; answer = []; closed = closed }
  | pos n ↦
      if n == msg_len
      then record { exit = pos 0; answer = (read_answer reads).printed; closed = fd ∷ closed }
      else record { exit = negsuc 0; answer = []; closed = closed }
]

-- What follows the loop over the addresses.
pub after_connect : Option ℕ → List ℕ → ℕ → ℤ → (ℕ → ReadResult) → End
unfolding ask
after_connect none closed msg_len sent reads = record {
  exit = negsuc 0;
  answer = [];
  closed = closed;
}
after_connect (some fd) closed msg_len sent reads = ask fd closed msg_len sent reads

-- `main` of main.c: none for a `getaddrinfo` that fails, or its addresses.
pub main : Option (List Address) → ℕ → ℤ → (ℕ → ReadResult) → End
unfolding connect_first after_connect
main none msg_len sent reads = record { exit = negsuc 0; answer = []; closed = [] }
main (some addresses) msg_len sent reads =
    let (connected, closed) = connect_first addresses [] in
    after_connect connected closed msg_len sent reads

-- How old.c has its address: from `inet_addr`, or `gethostbyname`, or not at all.
pub data Lookup : Type 0 where
  numeric by_name unknown : Lookup

-- `main` of old.c: `socket` returns `fd`, or -1 as none, and `connect` a negative number or not.
pub old_main : Lookup → Option ℕ → Bool → ℕ → ℤ → (ℕ → ReadResult) → End
unfolding ask
old_main unknown fd connects msg_len sent reads = record {
  exit = negsuc 0;
  answer = [];
  closed = [];
}
old_main l none connects msg_len sent reads = record { exit = negsuc 0; answer = []; closed = [] }
old_main l (some fd) connects msg_len sent reads =
    if fd == 0
    then record { exit = negsuc 0; answer = []; closed = [] }
    else (if connects
        then ask fd [] msg_len sent reads
        else record { exit = negsuc 0; answer = []; closed = [] })
