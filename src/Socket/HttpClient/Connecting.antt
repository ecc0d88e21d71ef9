-- ===== src/Socket/HttpClient/Connecting.antt =====
-- Which descriptors the HTTP client opens, and closes.
use linux_programing_demo.Common.{
  ◌==◌, if◌then◌else◌, Bool-cases, Option-cases, ℤ, pos, negsuc, ℕ, ◌≡◌, refl, ◌≢◌, ◌⊎◌, inl, inr,
  Option, none, some, List, [], ◌∷◌, arith,
}
use linux_programing_demo.Socket.HttpClient.{
  ReadResult, Address, connect_first, End, ask, after_connect, main,
}

-- The descriptors that are opened for a list of addresses, newest first: up to the first address
-- that can be connected, and no further.
abbrev pub opened : List Address → List ℕ → List ℕ
opened [] before = before
opened (a ∷ rest) before = elim a.socket [
  | none ↦ opened rest before
  | some fd ↦ if a.connects then fd ∷ before else opened rest (fd ∷ before)
]

-- The descriptor of the first address that can be connected.
abbrev pub reached : List Address → Option ℕ
reached [] = none
reached (a ∷ rest) = elim a.socket [
  | none ↦ reached rest
  | some fd ↦ if a.connects then some fd else reached rest
]

-- The descriptors that the loop over the addresses has not closed.
abbrev with_connected : Option ℕ → List ℕ → List ℕ
with_connected none closed = closed
with_connected (some fd) closed = fd ∷ closed

connect_first-opened :
    (addresses : List Address) (before : List ℕ)
    → ((connect_first addresses before).0 ≡ reached addresses)
      × (with_connected (reached addresses) (connect_first addresses before).1
          ≡ opened addresses before)
unfolding connect_first
connect_first-opened [] before = (refl, refl)
connect_first-opened (a ∷ rest) before = elim (Option-cases a.socket) [
  | inl gone ↦ rw (gone, connect_first) (connect_first-opened rest before)
  | inr (fd, there) ↦ elim (Bool-cases a.connects) [
    | inl good ↦ rw (there, good, connect_first) (refl, refl)
    | inr bad ↦ rw (there, bad, connect_first) (connect_first-opened rest (fd ∷ before))
  ]
]

-- What is closed of the descriptors `all`, by the one that is connected: all of them when none is, and
-- when the request is written whole; and all but the connected one when it is not written whole.
abbrev pub Tidy : Option ℕ → List ℕ → ℕ → ℤ → End → Type 0
Tidy none all msg_len sent e = (e.exit ≡ negsuc 0) × (e.closed ≡ all)
Tidy (some fd) all msg_len sent e =
    ((sent ≡ pos msg_len) × (e.exit ≡ pos 0) × (e.closed ≡ all))
    ⊎ ((sent ≢ pos msg_len) × (e.exit ≡ negsuc 0) × (fd ∷ e.closed ≡ all))

after_connect-Tidy :
    (connected : Option ℕ) (closed : List ℕ) (msg_len : ℕ) (sent : ℤ) (reads : ℕ → ReadResult)
    → Tidy connected
        (with_connected connected closed)
        msg_len
        sent
        (after_connect connected closed msg_len sent reads)
unfolding after_connect ask
after_connect-Tidy none closed msg_len sent reads = (refl, refl)
after_connect-Tidy (some fd) closed msg_len (negsuc k) reads =
    inr (λ e. absurd (ground (arith, e)), refl, refl)
after_connect-Tidy (some fd) closed msg_len (pos n) reads = elim (Bool-cases (n == msg_len)) [
  | inl whole ↦ rw (whole, ask) (inl (ground (arith, whole), refl, refl))
  | inr part ↦ rw (part, ask) (inr (λ e. absurd (ground (arith, e, part)), refl, refl))
]

-- When no address can be connected, the run returns -1 and has closed every descriptor that it has
-- opened. When one can, and the request is written whole, the run returns 0 and has closed them all too;
-- when it is not written whole, the run returns -1 and has closed all but the connected one.
pub main-Tidy :
    (addresses : List Address) (msg_len : ℕ) (sent : ℤ) (reads : ℕ → ReadResult)
    → Tidy
        (reached addresses)
        (opened addresses [])
        msg_len
        sent
        (main (some addresses) msg_len sent reads)
unfolding main
main-Tidy addresses msg_len sent reads =
    let (found, all) = connect_first-opened addresses [] in
    rw (found, ← all)
      (after_connect-Tidy (reached addresses) (connect_first addresses []).1 msg_len sent reads)
