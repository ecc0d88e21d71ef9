-- ===== src/Timer/Linux/Rounds.antt =====
-- What the ten rounds show.
use linux_programing_demo.Common.{
  if◌then◌else◌, ℕ, zero, suc, ◌+◌, ◌≡◌, refl, Bool, true, false, ◌&&◌, List, [], ◌∷◌, ◌++◌, arith,
}
use linux_programing_demo.Time.Convert.{Timespec, timespec2ms}
use linux_programing_demo.Timer.Linux.{
  Wait, interrupted, failed, timed_out, events, Line, wait_error, receive_eintr, timeout, ready,
  short_read, value_line, interval_line, is_whole, handle, handle_all, round, loop, finished, main,
}

-- How often the timer's values were shown.
abbrev pub shown : List Line → ℕ
shown [] = 0
shown (value_line v ∷ ls) = shown ls + 1
shown (_ ∷ ls) = shown ls

-- The only event of a wait is a whole read of the timer.
abbrev pub is_expiry : Wait → Bool
is_expiry (events (e ∷ [])) = e.is_in && is_whole e.read_size
is_expiry _ = false

-- The waits, from the `i`-th on, among `rest`, that are none.
abbrev pub missed : (ℕ → Wait) → ℕ → ℕ → ℕ
missed waits zero i = 0
missed waits (suc rest) i = (if is_expiry (waits i) then 0 else 1) + missed waits rest (i + 1)

-- `epoll_wait` gives at most the one event it is asked for.
abbrev pub AtMostOne : Wait → Type 0
AtMostOne (events []) = ⊥
AtMostOne (events (e ∷ e' ∷ es)) = ⊥
AtMostOne _ = Unit

shown-append : (a b : List Line) → shown (a ++ b) ≡ shown a + shown b
shown-append [] b = omega arith
shown-append (value_line v ∷ ls) b = omega (arith, shown-append ls b)
shown-append (wait_error ∷ ls) b = shown-append ls b
shown-append (receive_eintr ∷ ls) b = shown-append ls b
shown-append (timeout ∷ ls) b = shown-append ls b
shown-append (ready v ∷ ls) b = shown-append ls b
shown-append (short_read v ∷ ls) b = shown-append ls b
shown-append (interval_line v ∷ ls) b = shown-append ls b

round-shown :
    (init_time : ℕ) (w : Wait)
    → AtMostOne w
    → shown (round init_time w) ≡ (if is_expiry w then 1 else 0)
unfolding round handle_all handle
round-shown init_time interrupted h = refl
round-shown init_time failed h = refl
round-shown init_time timed_out h = refl
round-shown init_time (events []) h = absurd h
round-shown init_time (events (e ∷ [])) h = ground arith
round-shown init_time (events (e ∷ e' ∷ es)) h = absurd h

loop-shown :
    (init_time : ℕ) (waits : ℕ → Wait) (rest i : ℕ)
    → ((j : ℕ) → AtMostOne (waits j))
    → shown (loop init_time waits rest i) + missed waits rest i ≡ rest
unfolding loop
loop-shown init_time waits zero i h = refl
loop-shown init_time waits (suc rest) i h = ground (
  arith,
  shown-append (round init_time (waits i)) (loop init_time waits rest (i + 1)),
  round-shown init_time (waits i) (h i),
  loop-shown init_time waits rest (i + 1) h,
)

-- When `timerfd_create` succeeds and each `epoll_wait` gives one event at most, the loop ends after ten
-- waits, and shows the timer once for each of them that was a whole read: one that is interrupted,
-- times out, fails or is followed by a short read counts as one of the ten.
pub main-shown :
    (now : Timespec) (waits : ℕ → Wait)
    → ((j : ℕ) → AtMostOne (waits j))
    → (lines : List Line) × (main now true waits ≡ finished lines)
      × (shown lines + missed waits 10 0 ≡ 10)
unfolding main
main-shown now waits h = (_, refl, loop-shown (timespec2ms now) waits 10 0 h)
