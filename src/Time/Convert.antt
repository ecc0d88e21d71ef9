-- ===== src/Time/Convert.antt =====
-- The conversions of clock readings to milliseconds in time/ and timer/.
-- `t / 1000000. + 0.5`, truncated, is exact in doubles for every nanosecond field: the nearest
-- half millisecond is at least 1e-6 away or is hit exactly. So it is written as integer division.
pub mod Exact
pub mod Interval
use linux_programing_demo.Common.{
  leb, if◌then◌else◌, ℕ, ◌+◌, ◌-◌, ◌*◌, ◌/◌, ◌%◌, ◌^◌, ◌<◌, Option, none, some,
}

-- `struct timespec` and `struct timeval`, of times from the epoch on.
pub record Timespec : Type 0 where
  pub sec : ℕ
  pub nsec : ℕ

pub record Timeval : Type 0 where
  pub tv_sec : ℕ
  pub usec : ℕ

abbrev pub u64 : ℕ → ℕ
u64 n = n % 2 ^ 64

-- `timespec2ms`, `timespec2MS` and `_getTicks`, which round the milliseconds.
pub timespec2ms : Timespec → ℕ
timespec2ms t = u64 (t.sec * 1000 + (t.nsec + 500000) / 1000000)

-- `timespec2MS` of time/posix/getAndSet/main.c, which cuts them off.
pub timespec2ms_cut : Timespec → ℕ
timespec2ms_cut t = u64 (t.sec * 1000 + t.nsec / 1000000)

pub timeval2ms : Timeval → ℕ
timeval2ms t = u64 (t.tv_sec * 1000 + (t.usec + 500) / 1000)

-- `(uint64)((n2 - n1) / 1000000. + 0.5)`. The conversion truncates towards 0; of a negative value
-- it is taken as gcc compiles it for x86-64, by way of a signed integer.
pub round_difference : ℕ → ℕ → ℕ
round_difference n1 n2 =
    if leb n1 (n2 + 500000)
    then (n2 + 500000 - n1) / 1000000
    else u64 (2 ^ 64 - (n1 - (n2 + 500000)) / 1000000)

-- `timeInterval`
pub time_interval : Timespec → Timespec → ℕ
unfolding round_difference
time_interval t1 t2 = u64 (u64 (t2.sec + 2 ^ 64 - t1.sec) * 1000 + round_difference t1.nsec t2.nsec)

-- `getTimeStamp` and `getTimeStamp2` of time/unix/realTime/main.c; none is the return of -1.
pub get_time_stamp : Option Timeval → ℕ
get_time_stamp none = 0
get_time_stamp (some tv) = u64 (tv.tv_sec * 1000 + tv.usec / 1000)

pub get_time_stamp2 : Option ℕ → ℕ
get_time_stamp2 none = 0
get_time_stamp2 (some t) = u64 (t * 1000)

-- `ts.tms_utime * 1000 / g_clockTick`
pub ticks2ms : ℕ → ℕ → ℕ
ticks2ms clock_tick t = t * 1000 / clock_tick

abbrev pub to_ns : Timespec → ℕ
to_ns t = t.sec * 1000000000 + t.nsec

pub record IsTime (t : Timespec) : Type 0 where
  pub nsec_lt : t.nsec < 1000000000
  pub sec_lt : t.sec < 2 ^ 53
