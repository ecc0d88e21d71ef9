-- ===== src/Socket/Endpoints/Answers.antt =====
-- What the datagram servers answer.
use linux_programing_demo.Common.{
  if◌then◌else◌, Option-cases, length, take, pos, ℕ, zero, suc, ◌%◌, ◌<◌, ◌≡◌, refl, ◌∙◌, inl, inr,
  Bool, true, false, not, none, some, List, [], ◌∷◌, arith,
}
use linux_programing_demo.CString.{CString, atoi}
use linux_programing_demo.Socket.Datagram.{server_round}
use linux_programing_demo.Socket.Datagram.Echo.{server_round-answer, server_round-length}
use linux_programing_demo.Socket.Endpoints.{inet_port, Served, server_loop}

-- The datagrams up to the first one that is not received, or not sent back.
abbrev pub answered : List Served → List (List ℕ)
answered [] = []
answered (r ∷ more) = elim r.datagram [
  | none ↦ []
  | some d ↦ let rest = answered more in if r.sends then take 64 d ∷ rest else []
]

abbrev pub all_answered : List Served → Bool
all_answered [] = true
all_answered (r ∷ more) = elim r.datagram [
  | none ↦ false
  | some d ↦ let rest = all_answered more in if r.sends then rest else false
]

-- A datagram server with a buffer of 64 bytes answers each datagram with its own first 64 bytes, in order
-- and whatever the buffer held, up to the first call that fails; then it has ended, and else it goes on.
pub server_loop-answered :
    (buffer : List ℕ) (received : List Served)
    → length buffer ≡ 64
    → ((server_loop buffer received).replies ≡ answered received)
      × ((server_loop buffer received).ended ≡ not (all_answered received))
unfolding server_loop
server_loop-answered buffer [] room = (refl, refl)
server_loop-answered buffer (r ∷ more) room = elim (Option-cases r.datagram) [
  | inl nothing ↦ (ground arith, ground arith)
  | inr (d, something) ↦
      let rest =
        server_loop-answered (server_round buffer d).0 more (server_round-length buffer d ∙ room) in
      (
        ground (arith, rest, server_round-answer buffer d room),
        ground (arith, rest, server_round-answer buffer d room),
      )
]

-- The port that a program uses is the number of its argument modulo 65536, if the number is above 0: the
-- number itself up to 65535, and a larger one is not refused.
pub inet_port_lem : (s : CString) (n : ℕ) → atoi s ≡ pos n → 0 < n → inet_port s ≡ some (n % 65536)
unfolding inet_port
inet_port_lem s zero e above = absurd (omega (arith, above))
inet_port_lem s (suc n) e above = rw (e, inet_port) refl
