-- ===== src/Time/Convert/Exact.antt =====
-- Conversions to milliseconds and back.
use linux_programing_demo.Common.{leb, if◌then◌else◌, ◌+◌, ◌/◌, ◌%◌, ◌≡◌, arith}
use linux_programing_demo.Time.Convert.{Timespec, timespec2ms, timespec2ms_cut, to_ns, IsTime}

-- The rounding conversion is the nearest number of milliseconds, a half going up; the cutting one
-- of time/posix/getAndSet is less by one exactly when the rest is half a millisecond or more.
pub timespec2ms_nearest :
    (t : Timespec)
    → IsTime t
    → (timespec2ms t ≡ (to_ns t + 500000) / 1000000)
      × (timespec2ms t ≡ timespec2ms_cut t + (if leb 500000 (to_ns t % 1000000) then 1 else 0))
unfolding timespec2ms timespec2ms_cut
timespec2ms_nearest t v = ground arith
