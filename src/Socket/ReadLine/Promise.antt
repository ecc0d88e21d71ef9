-- ===== src/Socket/ReadLine/Promise.antt =====
-- `readLine` against the line that the stream holds, its bounds and its termination.
use linux_programing_demo.Common.{
  take-nil, ◌∙◌, ◌==◌, if◌then◌else◌, Bool-cases, length, take, length-append, length-take,
  take-snoc_lt, take-snoc_ge, overlay, store-overlay, ℤ, pos, negsuc, ℕ, zero, suc, ◌-◌, ◌≤◌, ◌≡◌,
  refl, ◌∙◌, inl, inr, false, none, some, List, [], ◌∷◌, ◌++◌, append_assoc, append-nil, arith,
  dec_lt,
}
use linux_programing_demo.Socket.ReadLine.{
  ReadOne, byte, eintr, fail, eof, Outcome, blocked, returned, newline, Locals, keep_byte,
  terminate, read_loop, read_line,
}

-- What a stream of outcomes holds before its first newline, end of file or error.
pub data Scan : Type 0 where
  waiting : Scan
  failed : ℕ → List ℕ → List ReadOne → Scan
  line : List ℕ → List ReadOne → Scan
  ended : List ℕ → List ReadOne → Scan

abbrev pub cons_scan : ℕ → Scan → Scan
cons_scan c waiting = waiting
cons_scan c (failed e l rest) = failed e (c ∷ l) rest
cons_scan c (line l rest) = line (c ∷ l) rest
cons_scan c (ended l rest) = ended (c ∷ l) rest

unfoldable pub scan : List ReadOne → Scan
scan [] = waiting
scan (eintr ∷ es) = scan es
scan (fail e ∷ es) = failed e [] es
scan (eof ∷ es) = ended [] es
scan (byte c ∷ es) = if c == newline then line (c ∷ []) es else cons_scan c (scan es)

-- The first n - 1 bytes of `l` and a NUL, in the buffer `buf`.
abbrev pub text_in : ℕ → List ℕ → List ℕ → List ℕ
text_in n l buf = overlay (take (n - 1) l ++ 0 ∷ []) buf

abbrev pub placed : ℕ → List ℕ → ℤ
placed n l = pos (length (take (n - 1) l))

-- At the end of file: 0 and an untouched buffer if the stream held no byte.
abbrev pub at_end : ℕ → List ℕ → List ℕ → List ReadOne → Outcome
at_end n buf [] rest = returned (pos 0) none (some buf) rest
at_end n buf (c ∷ l) rest = returned (placed n (c ∷ l)) none (some (text_in n (c ∷ l) buf)) rest

-- The result that the comment above `readLine` promises, `l` being read already.
abbrev pub promised : ℕ → List ℕ → List ℕ → Scan → Outcome
promised n buf l waiting = blocked
promised n buf l (failed e m rest) =
    returned (negsuc 0) (some e) (some (overlay (take (n - 1) (l ++ m)) buf)) rest
promised n buf l (line m rest) =
    returned (placed n (l ++ m)) none (some (text_in n (l ++ m) buf)) rest
promised n buf l (ended m rest) = at_end n buf (l ++ m) rest

-- The loop's state after the bytes `l`.
abbrev after : ℕ → List ℕ → List ℕ → Locals
after n buf l = record {
  buffer = overlay (take (n - 1) l) buf;
  p = length (take (n - 1) l);
  total = length (take (n - 1) l);
}

keep_byte-after :
    (n : ℕ) (buf l : List ℕ) (c : ℕ)
    → length buf ≡ n
    → keep_byte n (after n buf l) c ≡ some (after n buf (l ++ c ∷ []))
unfolding keep_byte
keep_byte-after n buf l c size = elim (dec_lt (length l) (n - 1)) [
  | yes room ↦ rw (take-snoc_lt (n - 1) l c (omega arith)) (
      ground (
        arith,
        store-overlay (take (n - 1) l) buf c (omega (arith, length-take (n - 1) l)),
        length-take (n - 1) l,
        length-append (take (n - 1) l) (c ∷ []),
      ))
  | no full ↦ rw (take-snoc_ge (n - 1) l c (omega arith)) (ground (arith, length-take (n - 1) l))
]

terminate-after :
    (n : ℕ) (buf l : List ℕ) (es : List ReadOne)
    → 1 ≤ n
    → length buf ≡ n
    → terminate (after n buf l) es ≡ returned (placed n l) none (some (text_in n l buf)) es
unfolding terminate
terminate-after n buf l es h size =
    rw (store-overlay (take (n - 1) l) buf 0 (omega (arith, length-take (n - 1) l)), terminate)

promised-cons :
    (n c : ℕ) (buf l : List ℕ) (r : Scan)
    → promised n buf (l ++ c ∷ []) r ≡ promised n buf l (cons_scan c r)
promised-cons n c buf l waiting = refl
promised-cons n c buf l (failed e m rest) = rw (append_assoc l (c ∷ []) m)
promised-cons n c buf l (line m rest) = rw (append_assoc l (c ∷ []) m)
promised-cons n c buf l (ended m rest) = rw (append_assoc l (c ∷ []) m)

at_end-nonempty :
    (n : ℕ) (buf l : List ℕ) (rest : List ReadOne)
    → 2 ≤ n
    → length buf ≡ n
    → (if length (take (n - 1) l) == 0
        then returned (pos 0) none (some (overlay (take (n - 1) l) buf)) rest
        else terminate (after n buf l) rest)
      ≡ at_end n buf l rest
at_end-nonempty n buf [] rest h size = rw (take-nil {A = ℕ} (n - 1))
at_end-nonempty n buf (c ∷ l) rest h size =
    let kept : (length (take (n - 1) (c ∷ l)) == 0) ≡ false =
      ground (arith, length-take (n - 1) (c ∷ l)) in
    rw kept (terminate-after n buf (c ∷ l) rest (omega arith) size)

loop_lem :
    (n : ℕ) (buf l : List ℕ) (es : List ReadOne)
    → 2 ≤ n
    → length buf ≡ n
    → read_loop n (after n buf l) es ≡ promised n buf l (scan es)
unfolding read_loop scan
loop_lem n buf l [] h size = refl
loop_lem n buf l (eintr ∷ es) h size = loop_lem n buf l es h size
loop_lem n buf l (fail e ∷ es) h size = rw (append-nil l)
loop_lem n buf l (eof ∷ es) h size = rw (append-nil l) (at_end-nonempty n buf l es h size)
loop_lem n buf l (byte c ∷ es) h size = elim (Bool-cases (c == newline)) [
  | inl nl ↦
      rw (keep_byte-after n buf l c size, nl, read_loop)
        (terminate-after n buf (l ++ c ∷ []) es (omega arith) size)
  | inr other ↦
      rw (keep_byte-after n buf l c size, other, read_loop)
        (loop_lem n buf (l ++ c ∷ []) es h size ∙ promised-cons n c buf l (scan es))
]

-- `readLine` into a buffer of its size n, 2 ≤ n, gives what the comment above it promises of the
-- stream: the value, the errno, every cell of the buffer and what is left to read.
pub read_line_lem :
    (n : ℕ) (buf : List ℕ) (es : List ReadOne)
    → 2 ≤ n
    → length buf ≡ n
    → read_line (some buf) n es ≡ promised n buf [] (scan es)
unfolding read_line
read_line_lem zero buf es h size = absurd (omega arith)
read_line_lem (suc n) buf es h size = rw start at (loop_lem (suc n) buf [] es h size)
  where
    start : after (suc n) buf [] ≡ record { buffer = buf; p = 0; total = 0 }
    start = rw (take-nil {A = ℕ} (suc n - 1))
