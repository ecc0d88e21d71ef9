-- ===== src/Time/Sleep/Duration.antt =====
-- How long `mySleep` sleeps, signals included.
use linux_programing_demo.Common.{
  pos, ℕ, ◌+◌, ◌-◌, ◌*◌, ◌/◌, ◌%◌, ◌^◌, ◌<◌, ◌≡◌, refl, ◌∙◌, ◌≢◌, ◌≤◌, length, some, List, [], ◌∷◌,
  arith,
}
use linux_programing_demo.Time.Convert.{Timespec, to_ns, timespec2ms}
use linux_programing_demo.Time.Convert.Exact.{timespec2ms_nearest}
use linux_programing_demo.Time.Sleep.{
  Slept, SleepType, sleep, nanosleep, posix_clock_abs, posix_clock_relative, Signal, split_ms,
  deadline, sleep_loop, abs_loop, my_sleep,
}

-- The request is exact, and the rounding conversion gives the milliseconds back.
pub split_ms-timespec2ms :
    (ms : ℕ)
    → ms < 2 ^ 62
    → (to_ns (split_ms ms) ≡ ms * 1000000)
      × ((split_ms ms).nsec < 1000000000)
      × (timespec2ms (split_ms ms) ≡ ms)
unfolding split_ms
split_ms-timespec2ms ms h = (
  omega arith,
  omega arith,
  (timespec2ms_nearest (split_ms ms) (record { nsec_lt = omega arith; sec_lt = omega arith })).0
      ∙ omega arith,
)

-- From a reading with a proper nanosecond field, the deadline is `ms` milliseconds later, and its
-- nanosecond field is proper too.
pub deadline_lem :
    (now : Timespec) (ms : ℕ)
    → now.nsec < 1000000000
    → (to_ns (deadline now ms) ≡ to_ns now + ms * 1000000) × ((deadline now ms).nsec < 1000000000)
unfolding deadline
deadline_lem now ms h = ground arith

-- What is documented of the kernel's clock: a time is rounded up, by at most the resolution `res`.
abbrev pub RoundsUp : (ℕ → ℕ) → ℕ → Type 0
RoundsUp round_up res = (k : ℕ) → (k ≤ round_up k) × (round_up k ≤ k + res)

-- The sleep ends with 0, not before `least` and not after `most`.
abbrev pub Lasts : Slept → ℕ → ℕ → Type 0
Lasts r least most = (r.ret ≡ pos 0) × ((ns : ℕ) × (r.ns ≡ some ns) × (least ≤ ns) × (ns ≤ most))

abs_loop-ns :
    (t : Timespec) (left : ℕ) (gs : List Signal)
    → ((abs_loop t left gs).ns ≡ some left) × ((abs_loop t left gs).ret ≡ pos 0)
unfolding abs_loop
abs_loop-ns t left [] = (refl, refl)
abs_loop-ns t left (g ∷ gs) = ground (arith, abs_loop-ns t (left - g.elapsed) gs)

-- The kinds of sleep that go on after a signal with what is left.
abbrev pub Resumes : SleepType → Type 0
Resumes nanosleep = Unit
Resumes posix_clock_abs = Unit
Resumes posix_clock_relative = Unit
Resumes _ = ⊥

-- How often a time is rounded: once for each relative call, and once for the absolute deadline.
abbrev pub roundings : SleepType → List Signal → ℕ
roundings posix_clock_abs gs = 1
roundings _ gs = length gs + 1

abbrev pub total_elapsed : List Signal → ℕ
total_elapsed [] = 0
total_elapsed (g ∷ gs) = g.elapsed + total_elapsed gs

abbrev pub AllLeft : List Signal → Type 0
AllLeft [] = Unit
AllLeft (g ∷ gs) = (g.left ≢ 0) × AllLeft gs

sleep_loop-restarts :
    (round_up : ℕ → ℕ) (sec : ℕ) (gs : List Signal)
    → AllLeft gs
    → (sleep_loop round_up sec gs).ns ≡ some (total_elapsed gs + round_up (sec * 1000000000))
unfolding sleep_loop
sleep_loop-restarts round_up sec [] h = ground arith
sleep_loop-restarts round_up sec (g ∷ gs) h =
    ground (arith, sleep_loop-restarts round_up sec gs h.1)

-- For less than 2 ^ 32 ms, the kind `sleep` starts again from the whole number of seconds after each signal that leaves
-- seconds over: the time slept before the signals comes on top.
pub my_sleep-restarts :
    (round_up : ℕ → ℕ) (ms : ℕ) (now : Timespec) (gs : List Signal)
    → ms < 2 ^ 32
    → AllLeft gs
    → (my_sleep round_up ms sleep now gs).ns
      ≡ some (total_elapsed gs + round_up (ms / 1000 * 1000000000))
unfolding my_sleep
my_sleep-restarts round_up ms now gs h left =
    let small : ms / 1000 % 2 ^ 32 ≡ ms / 1000 = omega arith in
    rw (small, my_sleep) (sleep_loop-restarts round_up (ms / 1000) gs left)

-- The time that a kind is to sleep, rounded up to a tick.
abbrev pub time_asked : (ℕ → ℕ) → SleepType → ℕ → Timespec → ℕ
time_asked round_up sleep ms now = round_up (ms / 1000 * 1000000000)
time_asked round_up posix_clock_abs ms now = round_up (to_ns now + ms * 1000000) - to_ns now
time_asked round_up _ ms now = round_up (ms * 1000000)

-- With no signal every valid kind sleeps the milliseconds asked for, `sleep` only their whole seconds,
-- and what the kernel rounds up, while the microseconds fit an `unsigned int`.
pub my_sleep-undisturbed :
    (round_up : ℕ → ℕ) (ms : ℕ) (type : SleepType) (now : Timespec)
    → type ≢ SleepType.invalid
    → ms < 4294967
    → now.nsec < 1000000000
    → (my_sleep round_up ms type now []).ns ≡ some (time_asked round_up type ms now)
unfolding my_sleep
my_sleep-undisturbed round_up ms sleep now ne h v =
    ground (arith, my_sleep-restarts round_up ms now [] (omega arith) tt)
my_sleep-undisturbed round_up ms SleepType.invalid now ne h v = absurd (ne refl)
my_sleep-undisturbed round_up ms posix_clock_abs now ne h v =
    let until = deadline now ms in
    rw (← (deadline_lem now ms v).0) (abs_loop-ns until (round_up (to_ns until) - to_ns now) []).0
my_sleep-undisturbed round_up ms nanosleep now ne h v =
    rw (← (split_ms-timespec2ms ms (omega arith)).0) refl
my_sleep-undisturbed round_up ms posix_clock_relative now ne h v =
    rw (← (split_ms-timespec2ms ms (omega arith)).0) refl
my_sleep-undisturbed round_up ms _ now ne h v = ground arith
