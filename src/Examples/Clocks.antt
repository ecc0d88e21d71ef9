-- ===== src/Examples/Clocks.antt =====
-- Readings of clocks and sleeps for the programs of time/.
use linux_programing_demo.Common.{ℕ, ◌+◌, ◌*◌, ◌/◌, refl, ◌≡◌, some, List, [], ◌∷◌, arith}
use linux_programing_demo.Time.Convert.{Timespec, IsTime, time_interval}
use linux_programing_demo.Time.Convert.Interval.{time_interval_lem}
use linux_programing_demo.Time.Sleep.{
  nanosleep, Signal, my_sleep, nanosleep_loop, split_ms, remaining,
}

-- Two readings 0.1 s apart, the nanosecond field going down.
abbrev before : Timespec
before = record { sec = 10; nsec = 950000001 }

abbrev after : Timespec
after = record { sec = 11; nsec = 50000000 }

before-IsTime : IsTime before
before-IsTime = record { nsec_lt = omega arith; sec_lt = omega arith }

after-IsTime : IsTime after
after-IsTime = record { nsec_lt = omega arith; sec_lt = omega arith }

-- 99.999999 ms are given as 101 ms.
time_interval_lem_example : time_interval before after ≡ 100 + 1
time_interval_lem_example = time_interval_lem before after before-IsTime after-IsTime (omega arith)

abbrev twice : List Signal
twice = record { elapsed = 400; left = 2 } ∷ record { elapsed = 500; left = 1 } ∷ []

-- A clock of 4 ms ticks.
abbrev ticks : ℕ → ℕ
ticks k = (k + 3999999) / 4000000 * 4000000

-- Each of the two restarts rounds what is left up to the whole time again.
restarts_longer : (my_sleep ticks 2500 nanosleep before twice).ns ≡ some 2500000900
unfolding my_sleep nanosleep_loop split_ms remaining
restarts_longer = refl
