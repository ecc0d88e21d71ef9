-- ===== src/Socket/ReadLine/Safety.antt =====
-- `readLine` stays inside its buffer, and returns once the stream lets it.
use linux_programing_demo.Common.{
  ltb, ◌==◌, Bool-cases, length, store, pos, negsuc, ℕ, zero, suc, ◌+◌, ◌-◌, ◌≤◌, ◌<◌, ◌≡◌, refl,
  ap, ◌⊎◌, inl, inr, some, List, [], ◌∷◌, arith,
}
use linux_programing_demo.Socket.ReadLine.{
  ReadOne, byte, eintr, fail, eof, Outcome, blocked, fault, returned, newline, Locals, keep_byte,
  terminate, read_loop, read_line,
}

-- The call has returned, with a value of at most `m`.
abbrev pub ReturnsAtMost : ℕ → Outcome → Type 0
ReturnsAtMost m blocked = ⊥
ReturnsAtMost m fault = ⊥
ReturnsAtMost m (returned (pos k) e b es) = k ≤ m
ReturnsAtMost m (returned (negsuc k) e b es) = k ≡ 0

-- It has returned so, or still waits; it has not written outside of the buffer.
abbrev pub IsSafe : ℕ → Outcome → Type 0
IsSafe m blocked = Unit
IsSafe m r = ReturnsAtMost m r

-- The stream has a newline, an end of file, or an error other than EINTR.
abbrev pub Stops : List ReadOne → Type 0
Stops [] = ⊥
Stops (eintr ∷ es) = Stops es
Stops (fail e ∷ es) = Unit
Stops (eof ∷ es) = Unit
Stops (byte c ∷ es) = (c ≡ newline) ⊎ Stops es

record Inv (n : ℕ) (s : Locals) : Type 0 where
  room : n ≤ length s.buffer
  nonempty : 1 ≤ n
  counted : s.p ≡ s.total
  below : s.total ≤ n - 1

store-total :
    (xs : List ℕ) (i v : ℕ)
    → i < length xs
    → (ys : List ℕ) × (store xs i v ≡ some ys) × (length ys ≡ length xs)
store-total [] i v h = absurd (omega arith)
store-total (x ∷ xs) zero v h = (v ∷ xs, refl, refl)
store-total (x ∷ xs) (suc i) v h =
    let (ys, e, l) = store-total xs i v (omega arith) in (x ∷ ys, rw e, ap suc l)

keep_byte-Inv :
    (n : ℕ) (s : Locals) (c : ℕ) → Inv n s → (s' : Locals) × (keep_byte n s c ≡ some s') × Inv n s'
unfolding keep_byte
keep_byte-Inv n s c inv = elim (Bool-cases (ltb s.total (n - 1))) [
  | inl more ↦
      let (ys, e, l) = store-total s.buffer s.p c (ground (arith, inv)) in
      (record { buffer = ys; p = s.p + 1; total = s.total + 1 }, rw (more, e), ground (arith, inv))
  | inr full ↦ (s, rw full, inv)
]

terminate_safe :
    (n : ℕ) (s : Locals) (es : List ReadOne) → Inv n s → ReturnsAtMost (n - 1) (terminate s es)
unfolding terminate
terminate_safe n s es inv =
    let (ys, e, l) = store-total s.buffer s.p 0 (omega (arith, inv)) in rw (e, terminate) inv.below

IsSafe-of_returns : (m : ℕ) (r : Outcome) → ReturnsAtMost m r → IsSafe m r
IsSafe-of_returns m blocked h = absurd h
IsSafe-of_returns m fault h = absurd h
IsSafe-of_returns m (returned (pos k) e b es) h = h
IsSafe-of_returns m (returned (negsuc k) e b es) h = h

-- Both halves of the claim, for the recursion.
abbrev Claim : ℕ → List ReadOne → Outcome → Type 0
Claim m es r = IsSafe m r × (Stops es → ReturnsAtMost m r)

both : (m : ℕ) (es : List ReadOne) (r : Outcome) → ReturnsAtMost m r → Claim m es r
both m es r h = (IsSafe-of_returns m r h, λ _. h)

loop_safe : (n : ℕ) (s : Locals) (es : List ReadOne) → Inv n s → Claim (n - 1) es (read_loop n s es)
unfolding read_loop
loop_safe n s [] inv = (tt, λ h. h)
loop_safe n s (eintr ∷ es) inv = loop_safe n s es inv
loop_safe n s (fail e ∷ es) inv = (refl, λ _. refl)
loop_safe n s (eof ∷ es) inv = elim (Bool-cases (s.total == 0)) [
  | inl empty ↦ rw (empty, read_loop) (omega arith, λ _. omega arith)
  | inr some_read ↦
      rw (some_read, read_loop) (both (n - 1) (eof ∷ es) _ (terminate_safe n s es inv))
]
loop_safe n s (byte c ∷ es) inv =
    let (s', e, inv') = keep_byte-Inv n s c inv in
    elim (Bool-cases (c == newline)) [
      | inl nl ↦ rw (e, nl, read_loop) (both (n - 1) (byte c ∷ es) _ (terminate_safe n s' es inv'))
      | inr other ↦
          let (safe, returns) = loop_safe n s' es inv' in
          rw (e, other, read_loop)
            (
              safe,
              λ stops. elim stops [ inl nl ↦ absurd (ground arith) | inr later ↦ returns later ],
            )
    ]

-- With a buffer of at least n cells, 1 ≤ n, `readLine` never writes outside of it and returns at
-- most n - 1; and once the stream has a newline, an end of file or an error it does return.
pub read_line-IsSafe :
    (n : ℕ) (buf : List ℕ) (es : List ReadOne)
    → 1 ≤ n
    → n ≤ length buf
    → IsSafe (n - 1) (read_line (some buf) n es)
      × (Stops es → ReturnsAtMost (n - 1) (read_line (some buf) n es))
unfolding read_line
read_line-IsSafe zero buf es h room = absurd (omega arith)
read_line-IsSafe (suc n) buf es h room =
    loop_safe (suc n) (record { buffer = buf; p = 0; total = 0 }) es (omega arith)
