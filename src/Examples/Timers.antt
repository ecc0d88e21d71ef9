-- ===== src/Examples/Timers.antt =====
-- Runs of timer/posix/main.c and timer/linux/main.c.
use linux_programing_demo.Common.{
  pos, ℕ, zero, suc, ◌+◌, ◌*◌, ◌≤◌, ◌<◌, ◌≡◌, refl, true, some, List, [], ◌∷◌, arith,
}
use linux_programing_demo.Time.Convert.{Timespec}
use linux_programing_demo.Threads.Family.{total}
use linux_programing_demo.Timer.Linux.{Itimerspec, Wait, interrupted, events, Line, finished, main}
use linux_programing_demo.Timer.Linux.Rounds.{AtMostOne, shown, missed, main-shown}
use linux_programing_demo.Timer.Posix
use linux_programing_demo.Timer.Posix.Counting.{counted, callbacks_counted}
use linux_programing_demo.Timer.Posix.Overlap.{callback_counts_lost}

abbrev at : ℕ → Timespec
at s = record { sec = s; nsec = 0 }

abbrev every_three : Itimerspec
every_three = record { it_interval = at 3; it_value = at 3 }

abbrev expiry : ℕ → Wait
expiry i =
    events (record { is_in = true; now = at (i * 3); read_size = pos 8; info = every_three } ∷ [])

-- The first wait is interrupted, and the others give an expiration each.
abbrev waits : ℕ → Wait
waits zero = interrupted
waits (suc i) = expiry (suc i)

waits-AtMostOne : (j : ℕ) → AtMostOne (waits j)
waits-AtMostOne zero = tt
waits-AtMostOne (suc j) = tt

main-shown_example :
    (lines : List Line) × (main (at 0) true waits ≡ finished lines)
    × (shown lines + missed waits 10 0 ≡ 10)
main-shown_example = main-shown (at 0) waits waits-AtMostOne

abbrev info : Posix.Info
info = record { its = some every_three; overrun = some 0 }

moves :
    {s s' : Posix.System}
    → Posix.Reach 1 1 s
    → Posix.is_running s.main ≡ true
    → Posix.callback info 0 (s.pc 0) s ≡ some s'
    → Posix.Reach 1 1 s'
moves {s' = s'} r run h = Posix.notify s' info 0 r (omega arith) run h

leads :
    {s s' : Posix.System}
    → Posix.Reach 1 1 s
    → Posix.master 1 true s.main s ≡ some s'
    → Posix.Reach 1 1 s'
leads {s' = s'} r h = Posix.lead s' true r h

-- One callback is asked for and runs.
run : (s : Posix.System) × Posix.Reach 1 1 s
unfolding Posix.callback Posix.master
run =
    let r1 = leads Posix.begin refl in
    let r2 = leads r1 refl in
    let r3 = moves r2 refl refl in
    let r4 = moves r3 refl refl in
    let r5 = moves r4 refl refl in
    let r6 = moves r5 refl refl in let r7 = leads r6 refl in (_, leads r7 refl)

callbacks_counted_example :
    (run.0.callback_count ≤ total counted 1 run.0.pc)
    × (run.0.main ≡ Posix.returned (pos 0) → 1 ≤ total counted 1 run.0.pc)
callbacks_counted_example = callbacks_counted 1 1 run.0 (omega arith) run.1

callback_counts_lost_example :
    (s : Posix.System) × Posix.Reach 10 12 s
    × ((t : ℕ) → t < 12 → s.pc t ≡ Posix.finished)
    × (s.callback_count ≡ 1)
    × (s.main ≡ Posix.testing)
callback_counts_lost_example = callback_counts_lost 10 12 (omega arith) info
