-- ===== src/Time/Ticks.antt =====
-- time/posix/ticks/main.c and time/unix/ticks/main.c: what the tests of the used time print.
-- The results of the calls are inputs.
pub mod Range
use linux_programing_demo.Common.{
  ltb, ◌==◌, if◌then◌else◌, ℤ, pos, negsuc, ℕ, zero, suc, ◌+◌, ◌-◌, ◌*◌, ◌/◌, ◌%◌, ◌^◌, Option,
  none, some, List, [], ◌∷◌, ◌++◌,
}
use linux_programing_demo.Time.Convert.{
  Timespec, Timeval, timespec2ms, timeval2ms, time_interval, ticks2ms,
}

-- The value of an `int` with these 32 bits, and what is left of a number in one; a product that
-- overflows is taken as two's complement.
abbrev pub int_of : ℕ → ℤ
int_of v = if ltb v (2 ^ 31) then pos v else negsuc (2 ^ 32 - v - 1)

abbrev pub u32 : ℕ → ℕ
u32 n = n % 2 ^ 32

-- Division by a positive number, towards 0.
abbrev pub minus : ℕ → ℤ
minus zero = pos 0
minus (suc n) = negsuc n

abbrev pub quotient : ℤ → ℕ → ℤ
quotient (pos v) d = pos (v / d)
quotient (negsuc v) d = minus ((v + 1) / d)

-- `int ret = clock();` and `ret * 1000 / CLOCKS_PER_SEC`, a product of `int`s; none is the test for -1.
unfoldable pub clock_ms : ℕ → Option ℤ
clock_ms ticks =
    if u32 ticks == 2 ^ 32 - 1
    then none
    else some (quotient (int_of (u32 (u32 ticks * 1000))) 1000000)

pub data Line : Type 0 where
  cpu_line : ℕ → Line  -- of the process clock, twice
  clock_failed : Line
  clock_line : ℤ → Line
  user_line : ℕ → Line
  system_line : ℕ → Line
  real_line : ℕ → Line

-- `costTimeTest` of time/posix/ticks/main.c: the process clock by both of its names, `clock`, and
-- `getrusage`.
unfoldable pub cost_time_test : Timespec → Timespec → ℕ → Timeval → Timeval → List Line
unfolding clock_ms
cost_time_test process by_id ticks utime stime =
    let first = cpu_line (timespec2ms process) ∷ cpu_line (timespec2ms by_id) ∷ [] in
    elim (clock_ms ticks) [
      | none ↦ first ++ clock_failed ∷ []
      | some ms ↦
          first
          ++ clock_line ms ∷ user_line (timeval2ms utime) ∷ system_line (timeval2ms stime) ∷ []
    ]

-- `main` of time/posix/ticks/main.c.
unfoldable pub posix_main :
    Timespec → Timespec → Timespec → Timespec → ℕ → Timeval → Timeval → List Line
unfolding cost_time_test
posix_main start end process by_id ticks utime stime =
    cost_time_test process by_id ticks utime stime ++ real_line (time_interval start end) ∷ []

-- `struct tms`
pub record Tms : Type 0 where
  pub tms_utime : ℕ
  pub tms_stime : ℕ
  pub tms_cutime : ℕ
  pub tms_cstime : ℕ

-- `costTimeTest` of time/unix/ticks/main.c: the four times, or the error.
unfoldable pub unix_main : ℕ → Option Tms → Option (List ℕ)
unix_main clock_tick none = none
unix_main clock_tick (some ts) = some (
    ticks2ms clock_tick ts.tms_utime
    ∷ ticks2ms clock_tick ts.tms_stime
    ∷ ticks2ms clock_tick ts.tms_cutime
    ∷ ticks2ms clock_tick ts.tms_cstime
    ∷ [])
