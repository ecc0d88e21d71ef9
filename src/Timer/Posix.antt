-- ===== src/Timer/Posix.antt =====
-- timer/posix/main.c: a timer that runs each of its callbacks in a new thread, and `main`, which waits
-- until the callbacks have counted up to their number. A step is one call or one access to
-- `g_callbackCount`, but what a callback does before its sleep (timer_gettime, timer_getoverrun and the
-- prints) is one step; the results of the calls are inputs of the step.
pub mod Counting
pub mod Overlap
use linux_programing_demo.Common.{
  ltb, if◌then◌else◌, ℤ, pos, negsuc, ℕ, ◌+◌, ◌%◌, ◌^◌, ◌<◌, ◌≡◌, Bool, true, false, Option, none,
  some, List, [], ◌∷◌, ◌++◌,
}
use linux_programing_demo.Time.Convert.{Timespec, timespec2ms}
use linux_programing_demo.Timer.Linux.{Itimerspec}
use linux_programing_demo.Threads.Family.{update}

-- What a callback prints between its first line and its sleep; the errors without their numbers.
pub data Line : Type 0 where
  gettime_failed : Line
  value_line : ℕ → Line
  interval_line : ℕ → Line
  getoverrun_failed : Line
  overrun_line : ℕ → Line

-- What `timer_gettime` and `timer_getoverrun` give; none is the return of -1.
pub record Info : Type 0 where
  pub its : Option Itimerspec
  pub overrun : Option ℕ

unfoldable pub report : Info → List Line
report info =
    let first : List Line = elim info.its [
      | none ↦ gettime_failed ∷ []
      | some ts ↦
          value_line (timespec2ms ts.it_value) ∷ interval_line (timespec2ms ts.it_interval) ∷ []
    ] in
    let second : List Line = elim info.overrun [
      | none ↦ getoverrun_failed ∷ []
      | some n ↦ overrun_line n ∷ []
    ] in
    first ++ second

-- Where the thread of a notification stands in `_timerCallback`: before its start, before the sleep,
-- before the load and before the store of `g_callbackCount++`, and after it.
pub data Pc : Type 0 where
  unfired : Pc
  sleeping : Pc
  loading : Pc
  storing : ℕ → Pc
  finished : Pc

-- `main`: before `timer_create`, before `timer_settime`, before the test of its loop, in its sleep,
-- before `timer_delete`, or returned 0 or -1.
pub data Main : Type 0 where
  creating : Main
  arming : Main
  testing : Main
  waiting : Main
  deleting : Main
  returned : ℤ → Main

pub record System : Type 0 where
  pub armed : Bool
  pub callback_count : ℕ
  pub pc : ℕ → Pc
  pub lines : List Line
  pub main : Main

abbrev pub init : System
init = record { armed = false; callback_count = 0; pc = λ _. unfired; lines = []; main = creating }

-- An `int`.
abbrev pub u32 : ℕ → ℕ
u32 n = n % 2 ^ 32

-- The process is gone once `main` has returned.
abbrev pub is_running : Main → Bool
is_running (returned r) = false
is_running _ = true

-- The next step of the callback of notification `t`, the first when the timer fires.
unfoldable pub callback : Info → ℕ → Pc → System → Option System
unfolding report
callback info t unfired s =
    if s.armed
    then some (record s { pc = update s.pc t sleeping; lines = s.lines ++ report info })
    else none
callback info t sleeping s = some (record s { pc = update s.pc t loading })
callback info t loading s = some (record s { pc = update s.pc t (storing s.callback_count) })
callback info t (storing v) s =
    some (record s { callback_count = u32 (v + 1); pc = update s.pc t finished })
callback info t finished s = none

-- The next step of `main`, with `g_maxCallbackCount`, and whether the call of the step succeeds.
unfoldable pub master : ℕ → Bool → Main → System → Option System
master max ok creating s = some (record s { main = if ok then arming else returned (negsuc 0) })
master max ok arming s =
    some (record s { armed = ok; main = if ok then testing else returned (negsuc 0) })
master max ok testing s =
    some (record s { main = if ltb s.callback_count max then waiting else deleting })
master max ok waiting s = some (record s { main = testing })
master max ok deleting s = some (record s { armed = false; main = returned (pos 0) })
master max ok (returned r) s = none

-- Runs in which at most `n` notifications arrive.
pub data Reach (max n : ℕ) : System → Type 0 where
  begin : Reach max n init
  notify :
      {s : System} (s' : System) (info : Info) (t : ℕ)
      → Reach max n s
      → t < n
      → is_running s.main ≡ true
      → callback info t (s.pc t) s ≡ some s'
      → Reach max n s'
  lead :
      {s : System} (s' : System) (ok : Bool)
      → Reach max n s
      → master max ok s.main s ≡ some s'
      → Reach max n s'
