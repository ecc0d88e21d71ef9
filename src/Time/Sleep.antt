-- ===== src/Time/Sleep.antt =====
-- time/sleep/main.c: `mySleep`, by its kind of sleep. The kernel lets a time end at a tick of the clock
-- only: `round_up` gives the nanoseconds from those asked for, and each new call rounds again.
pub mod Duration
use linux_programing_demo.Common.{
  ltb, leb, ◌==◌, if◌then◌else◌, ℤ, pos, negsuc, ℕ, ◌+◌, ◌-◌, ◌*◌, ◌/◌, ◌%◌, ◌^◌, min, Option, none,
  some, List, [], ◌∷◌,
}
use Prim.Native.String.{String}
use linux_programing_demo.Time.Convert.{Timespec, Timeval, to_ns}

pub data SleepType : Type 0 where
  sleep usleep nanosleep select poll epoll posix_clock_abs posix_clock_relative invalid : SleepType

-- `sleepType2String`
pub sleep_type2string : SleepType → Option String
sleep_type2string sleep = some "sleep"
sleep_type2string usleep = some "usleep"
sleep_type2string nanosleep = some "nanosleep"
sleep_type2string select = some "select"
sleep_type2string poll = some "poll"
sleep_type2string epoll = some "epoll"
sleep_type2string posix_clock_abs = some "posixClock_abs"
sleep_type2string posix_clock_relative = some "posixClock_relative"
sleep_type2string invalid = none

-- A signal that is caught during a call: the nanoseconds slept before it in that call, and what
-- `sleep` then returns as the seconds left. Each call uses up one signal, while there are any.
pub record Signal : Type 0 where
  pub elapsed : ℕ
  pub left : ℕ

-- The call that is made, with its argument; a timeout of `poll` and `epoll_wait` is an `int`, of
-- which none stands for a negative value: no timeout at all.
pub data Call : Type 0 where
  call_sleep : ℕ → Call
  call_usleep : ℕ → Call
  call_nanosleep : Timespec → Call
  call_select : Timeval → Call
  call_poll : Option ℕ → Call
  call_epoll_wait : Option ℕ → Call
  call_clock_abs : Timespec → Call
  call_clock_relative : Timespec → Call

-- What `mySleep` does: its calls in order, the nanoseconds that they sleep, and the last result;
-- none for a sleep without end.
pub record Slept : Type 0 where
  pub calls : List Call
  pub ns : Option ℕ
  pub ret : ℤ

abbrev one_billion : ℕ
one_billion = 1000000000

-- The request of `nanosleep` and of the relative `clock_nanosleep`.
unfoldable pub split_ms : ℕ → Timespec
split_ms ms = record { sec = ms / 1000; nsec = ms % 1000 * 1000000 }

-- The deadline of the absolute `clock_nanosleep`, from the reading `now`.
pub deadline : Timespec → ℕ → Timespec
deadline now ms =
    let t : Timespec = record {
      sec = now.sec + ms / 1000;
      nsec = now.nsec + ms % 1000 * 1000000;
    } in
    if leb one_billion t.nsec then record { sec = t.sec + 1; nsec = t.nsec - one_billion } else t

-- What `nanosleep` stores when a signal interrupts it: of the `ns` that the call would have slept, those
-- that are left after `k`.
unfoldable pub remaining : ℕ → ℕ → Timespec
remaining ns k = record { sec = (ns - k) / one_billion; nsec = (ns - k) % one_billion }

abbrev pub add_slept : Call → ℕ → Slept → Slept
add_slept c k r = record {
  calls = c ∷ r.calls;
  ns = elim r.ns [ none ↦ none | some m ↦ some (k + m) ];
  ret = r.ret;
}

abbrev pub full_sleep : Call → ℕ → Slept
full_sleep c k = record { calls = c ∷ []; ns = some k; ret = pos 0 }

-- `while ((ret = sleep(ms / 1000)) > 0)`
pub sleep_loop : (ℕ → ℕ) → ℕ → List Signal → Slept
sleep_loop round_up sec [] = full_sleep (call_sleep sec) (round_up (sec * one_billion))
sleep_loop round_up sec (g ∷ gs) =
    let again = add_slept (call_sleep sec) g.elapsed (sleep_loop round_up sec gs) in
    if g.left == 0 then full_sleep (call_sleep sec) g.elapsed else again

-- `while ((ret = nanosleep(&request, &request)) == -1 && errno == EINTR)`, and the same with the
-- relative `clock_nanosleep`. A signal after the end of the call does not interrupt it.
unfoldable pub nanosleep_loop : (ℕ → ℕ) → (Timespec → Call) → Timespec → List Signal → Slept
unfolding remaining
nanosleep_loop round_up call request [] = full_sleep (call request) (round_up (to_ns request))
nanosleep_loop round_up call request (g ∷ gs) =
    let ns = round_up (to_ns request) in
    let again =
      add_slept (call request) g.elapsed
        (nanosleep_loop round_up call (remaining ns g.elapsed) gs) in
    if ltb g.elapsed ns then again else full_sleep (call request) ns

-- `while ((ret = clock_nanosleep(CLOCK_MONOTONIC, TIMER_ABSTIME, ...)) == EINTR)`; `left` is the
-- time to the tick at which the deadline has come.
pub abs_loop : Timespec → ℕ → List Signal → Slept
abs_loop until left [] = full_sleep (call_clock_abs until) left
abs_loop until left (g ∷ gs) =
    let again = add_slept (call_clock_abs until) g.elapsed (abs_loop until (left - g.elapsed) gs) in
    if ltb g.elapsed left then again else full_sleep (call_clock_abs until) left

-- A call that is made once: a signal ends it with -1. A wait without end lasts until a signal.
pub once : Call → Option ℕ → List Signal → Slept
once c none [] = record { calls = c ∷ []; ns = none; ret = pos 0 }
once c (some k) [] = full_sleep c k
once c none (g ∷ gs) = record { calls = c ∷ []; ns = some g.elapsed; ret = negsuc 0 }
once c (some k) (g ∷ gs) =
    if ltb g.elapsed k
    then record { calls = c ∷ []; ns = some g.elapsed; ret = negsuc 0 }
    else full_sleep c k

-- A `uint64` passed where an `int` timeout in milliseconds is expected.
pub int_timeout : ℕ → Option ℕ
int_timeout ms = if ltb (ms % 2 ^ 32) (2 ^ 31) then some (ms % 2 ^ 32) else none

abbrev ms_to_ns : (ℕ → ℕ) → Option ℕ → Option ℕ
ms_to_ns round_up none = none
ms_to_ns round_up (some t) = some (round_up (t * 1000000))

-- `mySleep`, started at the reading `now`.
unfoldable pub my_sleep : (ℕ → ℕ) → ℕ → SleepType → Timespec → List Signal → Slept
unfolding split_ms deadline sleep_loop nanosleep_loop abs_loop once int_timeout
my_sleep round_up ms sleep now gs = sleep_loop round_up (ms / 1000 % 2 ^ 32) gs
my_sleep round_up ms usleep now gs =
    let us = ms * 1000 % 2 ^ 32 in once (call_usleep us) (some (round_up (us * 1000))) gs
my_sleep round_up ms nanosleep now gs = nanosleep_loop round_up call_nanosleep (split_ms ms) gs
my_sleep round_up ms select now gs =
    once (call_select (record { tv_sec = ms / 1000; usec = ms % 1000 * 1000 }))
      (some (round_up (ms / 1000 * one_billion + ms % 1000 * 1000000))) gs
my_sleep round_up ms poll now gs =
    once (call_poll (int_timeout ms)) (ms_to_ns round_up (int_timeout ms)) gs
my_sleep round_up ms epoll now gs =
    once (call_epoll_wait (int_timeout ms)) (ms_to_ns round_up (int_timeout ms)) gs
my_sleep round_up ms posix_clock_abs now gs =
    let until = deadline now ms in abs_loop until (round_up (to_ns until) - to_ns now) gs
my_sleep round_up ms posix_clock_relative now gs =
    nanosleep_loop round_up call_clock_relative (split_ms ms) gs
my_sleep round_up ms invalid now gs = record { calls = []; ns = some 0; ret = pos 0 }
