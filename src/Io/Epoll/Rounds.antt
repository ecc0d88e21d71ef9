-- ===== src/Io/Epoll/Rounds.antt =====
-- When the loop over `epoll_wait` ends.
use linux_programing_demo.Common.{
  leb, Bool-cases, ℕ, ◌+◌, ◌-◌, ◌<◌, ◌≡◌, refl, inl, inr, none, List, [], ◌∷◌, arith,
}
use linux_programing_demo.Io.Epoll.{
  Event, readable, hung_up, other_event, Wait, interrupted, failed, timed_out, events, State,
  handle, handle_all, on_timeout, loop, main,
}

abbrev pub timeouts : List Wait → ℕ
timeouts [] = 0
timeouts (timed_out ∷ ws) = timeouts ws + 1
timeouts (w ∷ ws) = timeouts ws

handle_all-count : (s : State) (es : List Event) → (handle_all s es).timeout_count ≡ s.timeout_count
unfolding handle_all
handle_all-count s [] = refl
handle_all-count s (readable fd r ∷ es) = handle_all-count (handle s (readable fd r)) es
handle_all-count s (hung_up fd ∷ es) = handle_all-count (handle s (hung_up fd)) es
handle_all-count s (other_event fd ∷ es) = handle_all-count s es

on_timeout-count : (s : State) → (on_timeout s).timeout_count ≡ s.timeout_count - 1
unfolding on_timeout
on_timeout-count s = ground arith

loop_ends :
    (s : State) (ws : List Wait)
    → 0 < s.timeout_count
    → (loop s ws ≡ none → timeouts ws < s.timeout_count)
      × (timeouts ws < s.timeout_count → loop s ws ≡ none)
unfolding loop
loop_ends s [] h = (λ e. h, λ e. refl)
loop_ends s (interrupted ∷ ws) h = loop_ends s ws h
loop_ends s (failed ∷ ws) h = ground (arith, loop_ends s ws h)
loop_ends s (timed_out ∷ ws) h = elim (Bool-cases (leb (on_timeout s).timeout_count 0)) [
  | inl last ↦ rw last (λ e. cc, λ e. absurd (ground (arith, on_timeout-count s)))
  | inr more ↦
      let (less, waits) = loop_ends (on_timeout s) ws (ground arith) in
      rw more (
        λ e. omega (arith, less e, on_timeout-count s),
        λ e. waits (omega (arith, on_timeout-count s)),
      )
]
loop_ends s (events es ∷ ws) h =
    ground (arith, handle_all-count s es, loop_ends (handle_all s es) ws)

-- The program ends exactly when `epoll_wait` has timed out three times, whatever other results come
-- between: it still waits as long as there have been fewer.
pub main-waits :
    (p0 p1 : ℕ) (ws : List Wait)
    → (main p0 p1 ws ≡ none → timeouts ws < 3) × (timeouts ws < 3 → main p0 p1 ws ≡ none)
unfolding main
main-waits p0 p1 ws = loop_ends _ ws (omega arith)
