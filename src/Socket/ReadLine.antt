-- ===== src/Socket/ReadLine.antt =====
-- socket/internet_tcp/common.c: `readLine`, over the outcomes of its one-byte `read` calls.
-- The buffer is a list of cells, and a write outside of it is a fault.
pub mod Promise
pub mod Safety
use linux_programing_demo.Common.{
  ltb, ◌==◌, if◌then◌else◌, store, ℤ, pos, negsuc, ℕ, zero, suc, ◌+◌, ◌-◌, true, false, Option,
  none, some, List, [], ◌∷◌,
}

-- What one `read(fd, &ch, 1)` does: a byte, -1 with EINTR, -1 with another errno, or 0.
pub data ReadOne : Type 0 where
  byte : ℕ → ReadOne
  eintr : ReadOne
  fail : ℕ → ReadOne
  eof : ReadOne

-- How a call ends. `blocked`: the outcomes at hand are used up and `read` still waits.
-- `returned`: the value, the errno it set, the buffer (none for NULL), the outcomes left.
pub data Outcome : Type 0 where
  blocked : Outcome
  fault : Outcome
  returned : ℤ → Option ℕ → Option (List ℕ) → List ReadOne → Outcome

abbrev pub newline : ℕ
newline = 10

abbrev pub einval : ℕ
einval = 22

-- The locals of the loop: the buffer with the position `p` in it, and `totalReadSize`.
pub record Locals : Type 0 where
  pub buffer : List ℕ
  pub p : ℕ
  pub total : ℕ

-- `if (totalReadSize < n - 1) { totalReadSize++; *p++ = ch; }`
pub keep_byte : ℕ → Locals → ℕ → Option Locals
keep_byte n s ch =
    if ltb s.total (n - 1)
    then elim (store s.buffer s.p ch) [
      | none ↦ none
      | some b ↦ some (record { buffer = b; p = s.p + 1; total = s.total + 1 })
    ]
    else some s

-- `*p = 0; return totalReadSize;`
pub terminate : Locals → List ReadOne → Outcome
terminate s es = elim (store s.buffer s.p 0) [
  | none ↦ fault
  | some b ↦ returned (pos s.total) none (some b) es
]

-- The `for (;;)` loop.
pub read_loop : ℕ → Locals → List ReadOne → Outcome
unfolding keep_byte terminate
read_loop n s [] = blocked
read_loop n s (eintr ∷ es) = read_loop n s es
read_loop n s (fail e ∷ es) = returned (negsuc 0) (some e) (some s.buffer) es
read_loop n s (eof ∷ es) =
    if s.total == 0 then returned (pos 0) none (some s.buffer) es else terminate s es
read_loop n s (byte ch ∷ es) = elim (keep_byte n s ch) [
  | none ↦ fault
  | some s' ↦ elim (ch == newline) [ true ↦ terminate s' es | false ↦ read_loop n s' es ]
]

-- `readLine(fd, buffer, n)`; a buffer of `none` is NULL.
pub read_line : Option (List ℕ) → ℕ → List ReadOne → Outcome
unfolding read_loop
read_line none n es = returned (negsuc 0) (some einval) none es
read_line (some buf) zero es = returned (negsuc 0) (some einval) (some buf) es
read_line (some buf) (suc n) es = read_loop (suc n) (record { buffer = buf; p = 0; total = 0 }) es
