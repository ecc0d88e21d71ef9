-- ===== src/Time/Convert/Interval.antt =====
-- How far the milliseconds of `timeInterval` are from the interval in nanoseconds.
use linux_programing_demo.Common.{
  leb, ◌==◌, if◌then◌else◌, ℕ, ◌+◌, ◌-◌, ◌*◌, ◌/◌, ◌%◌, ◌≤◌, ◌<◌, ◌≡◌, arith,
}
use linux_programing_demo.Time.Convert.{Timespec, time_interval, to_ns, IsTime}

-- The whole number of milliseconds nearest to `d` nanoseconds, a half going up.
abbrev pub nearest_ms : ℕ → ℕ
nearest_ms d = (d + 500000) / 1000000

-- Between two readings, the first no later: `timeInterval` gives the nearest number of milliseconds,
-- but where the nanosecond field goes down by more than half a millisecond, and that half removed
-- is no whole number of milliseconds, it gives one more.
pub time_interval_lem :
    (t1 t2 : Timespec)
    → IsTime t1
    → IsTime t2
    → to_ns t1 ≤ to_ns t2
    → time_interval t1 t2
      ≡ nearest_ms (to_ns t2 - to_ns t1)
        + (if leb t1.nsec (t2.nsec + 500000)
            then 0
            else (if (t1.nsec - (t2.nsec + 500000)) % 1000000 == 0 then 0 else 1))
unfolding time_interval
time_interval_lem t1 t2 v1 v2 le = ground arith

-- Between two readings, the first no later, the result of `timeInterval` is at most half a
-- millisecond too small and less than a millisecond and a half too large.
pub time_interval_bounds :
    (t1 t2 : Timespec)
    → IsTime t1
    → IsTime t2
    → to_ns t1 ≤ to_ns t2
    → (to_ns t2 - to_ns t1 ≤ time_interval t1 t2 * 1000000 + 500000)
      × (time_interval t1 t2 * 1000000 < to_ns t2 - to_ns t1 + 1500000)
time_interval_bounds t1 t2 v1 v2 le = ground (arith, time_interval_lem t1 t2 v1 v2 le)
