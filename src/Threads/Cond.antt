-- ===== src/Threads/Cond.antt =====
-- thread/cond/main.c: a producer and a consumer with a mutex and a condition variable.
-- A step is one call of pthread or one access to `counter` or `producerExit`. The calls of `sleep`
-- are not modelled: either thread may be delayed at any place. `pthread_cond_signal` returns 0, as
-- POSIX has it do on an initialised variable, so the early return of the producer is left out.
pub mod Accounts
pub mod Deadlock
use linux_programing_demo.Common.{
  ltb, ◌==◌, if◌then◌else◌, take, ℕ, ◌+◌, ◌-◌, ◌≡◌, Bool, true, false, not, Option, none, some,
}

pub data Who : Type 0 where
  producer consumer : Who

-- `_productFunc`, with its `i`: at the head of the loop, and with the mutex before `counter++`.
pub data Producer : Type 0 where
  p_head : ℕ → Producer
  p_inc : ℕ → Producer
  p_unlock : ℕ → Producer
  p_signal : ℕ → Producer
  p_exit : Producer  -- before `producerExit = true`
  p_done : Producer

-- `_customerFunc`.
pub data Consumer : Type 0 where
  c_lock : Consumer
  c_test : Consumer  -- before `while (counter == 0)`
  c_check_exit : Consumer  -- before `if (!producerExit)`
  c_wait : Consumer  -- in `pthread_cond_wait`, not signalled
  c_woken : Consumer  -- in `pthread_cond_wait`, to take the mutex again
  c_drain : Consumer  -- before `while (counter > 0)`
  c_unlock : Consumer
  c_exit : Consumer  -- before the test of `producerExit` after the mutex is released
  c_exit_count : Consumer  -- `producerExit` was true, before the test of `counter`
  c_done : Consumer

-- The shared state, the two threads, and how many lines "exhaust" the consumer has printed.
pub record System : Type 0 where
  pub mutex : Option Who
  pub counter : ℕ
  pub producer_exit : Bool
  pub prod : Producer
  pub cons : Consumer
  pub exhausted : ℕ

abbrev pub init : System
init = record {
  mutex = none;
  counter = 0;
  producer_exit = false;
  prod = p_head 0;
  cons = c_lock;
  exhausted = 0;
}

-- `pthread_cond_signal`: the consumer wakes if it waits.
abbrev wake : Consumer → Consumer
wake c_wait = c_woken
wake c = c

module _ (max : ℕ) where
  unfoldable pub produce : Producer → System → Option System
  produce (p_head i) s =
      if ltb i max
      then elim s.mutex [
        | none ↦ some (record s { mutex = some producer; prod = p_inc i })
        | some w ↦ none
      ]
      else some (record s { prod = p_exit })
  produce (p_inc i) s = some (record s { counter = s.counter + 1; prod = p_unlock i })
  produce (p_unlock i) s = some (record s { mutex = none; prod = p_signal i })
  produce (p_signal i) s = some (record s { prod = p_head (i + 1); cons = wake s.cons })
  produce p_exit s = some (record s { producer_exit = true; prod = p_done })
  produce p_done s = none

abbrev take_mutex : Consumer → System → Option System
take_mutex c s = elim s.mutex [
  | none ↦ some (record s { mutex = some consumer; cons = c })
  | some w ↦ none
]

unfoldable pub consume : Consumer → System → Option System
consume c_lock s = take_mutex c_test s
consume c_test s = some (record s { cons = if s.counter == 0 then c_check_exit else c_drain })
consume c_check_exit s =
    if s.producer_exit
    then some (record s { cons = c_drain })
    else some (record s { mutex = none; cons = c_wait })
consume c_wait s = none
consume c_woken s = take_mutex c_test s
consume c_drain s =
    if ltb 0 s.counter
    then some (record s { counter = s.counter - 1; exhausted = s.exhausted + 1 })
    else some (record s { cons = c_unlock })
consume c_unlock s = some (record s { mutex = none; cons = c_exit })
consume c_exit s = some (record s { cons = if s.producer_exit then c_exit_count else c_lock })
consume c_exit_count s = some (record s { cons = if s.counter == 0 then c_done else c_lock })
consume c_done s = none

-- One step of one of the threads of `main`, whose `maxTestNumber` is `max`.
unfoldable pub step : ℕ → Who → System → Option System
unfolding produce consume
step max producer s = produce max s.prod s
step max consumer s = consume s.cons s

-- The states that the two threads reach; `spurious` is a wake-up that nobody signalled.
pub data Reach (max : ℕ) : System → Type 0 where
  start : Reach max init
  next : {s : System} (s' : System) (w : Who) → Reach max s → step max w s ≡ some s' → Reach max s'
  spurious :
      {s : System} (s' : System)
      → Reach max s
      → s.cons ≡ c_wait
      → s' ≡ record s { cons = c_woken }
      → Reach max s'
