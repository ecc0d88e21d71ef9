-- ===== src/Timer/Linux.antt =====
-- timer/linux/main.c: a timer behind a descriptor, and ten rounds of `epoll_wait`.
-- The results of the calls are inputs; the output is what is printed.
pub mod Rounds
use linux_programing_demo.Common.{
  ◌==◌, if◌then◌else◌, ℤ, pos, negsuc, ℕ, zero, suc, ◌+◌, ◌-◌, ◌%◌, ◌^◌, Bool, false, List, [], ◌∷◌,
  ◌++◌,
}
use linux_programing_demo.Time.Convert.{Timespec, u64, timespec2ms}

-- `struct itimerspec`
pub record Itimerspec : Type 0 where
  pub it_interval : Timespec
  pub it_value : Timespec

-- `_getInterval`, in milliseconds: printed with three digits, the division by 1000. is exact.
unfoldable pub get_interval : ℕ → Timespec → ℕ
get_interval init_time now = u64 (timespec2ms now + 2 ^ 64 - init_time)

-- An event: whether EPOLLIN is set, the clock at the time, what `read` returns, and what
-- `timerfd_gettime` then gives.
pub record Event : Type 0 where
  pub is_in : Bool
  pub now : Timespec
  pub read_size : ℤ
  pub info : Itimerspec

-- `epoll_wait`: -1 with EINTR or another errno, 0, or events.
pub data Wait : Type 0 where
  interrupted : Wait
  failed : Wait
  timed_out : Wait
  events : List Event → Wait

pub data Line : Type 0 where
  wait_error : Line
  receive_eintr : Line
  timeout : Line
  ready : ℕ → Line  -- "%.3f timer is ready"
  short_read : ℤ → Line
  value_line : ℕ → Line  -- "it_value: "
  interval_line : ℕ → Line  -- "it_interval: "

-- `sizeof(u_int64_t)`
abbrev pub is_whole : ℤ → Bool
is_whole (pos n) = n == 8
is_whole (negsuc n) = false

-- One event of the `for` loop.
unfoldable pub handle : ℕ → Event → List Line
unfolding get_interval
handle init_time e =
    if e.is_in
    then ready (get_interval init_time e.now)
      ∷ (if is_whole e.read_size
          then value_line (timespec2ms e.info.it_value)
            ∷ interval_line (timespec2ms e.info.it_interval)
            ∷ []
          else short_read e.read_size ∷ [])
    else []

unfoldable pub handle_all : ℕ → List Event → List Line
unfolding handle
handle_all init_time [] = []
handle_all init_time (e ∷ es) = handle init_time e ++ handle_all init_time es

-- The `switch` of one round.
unfoldable pub round : ℕ → Wait → List Line
unfolding handle_all
round init_time interrupted = wait_error ∷ receive_eintr ∷ []
round init_time failed = wait_error ∷ []
round init_time timed_out = timeout ∷ []
round init_time (events es) = handle_all init_time es

-- `while (i < g_maxCallbackCount)`, with `rest` rounds to go; `i` is counted up before the wait, whose
-- result is `waits i`.
unfoldable pub loop : ℕ → (ℕ → Wait) → ℕ → ℕ → List Line
unfolding round
loop init_time waits zero i = []
loop init_time waits (suc rest) i = round init_time (waits i) ++ loop init_time waits rest (i + 1)

abbrev pub max_callback_count : ℕ
max_callback_count = 10

-- `main`: a `timerfd_create` that fails ends it with -1. The other set-up calls are not tested.
pub data Outcome : Type 0 where
  create_failed : Outcome
  finished : List Line → Outcome

unfoldable pub main : Timespec → Bool → (ℕ → Wait) → Outcome
unfolding loop
main now created waits =
    if created then finished (loop (timespec2ms now) waits max_callback_count 0) else create_failed
