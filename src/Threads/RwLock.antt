-- ===== src/Threads/RwLock.antt =====
-- thread/rw-lock/main.c: two writers that count under a read-write lock, two readers that look at the
-- counter after they have had the lock, and `main`, which creates and joins the four. A step is one
-- call or one access to shared memory; threads 0 and 2 are the writers.
pub mod Invariant
pub mod Advance
pub mod Reached
pub mod Outcome
use linux_programing_demo.Common.{
  ltb, ◌==◌, if◌then◌else◌, ◌>>=◌, ℕ, ◌+◌, ◌-◌, ◌*◌, ◌%◌, ◌^◌, ◌<◌, ◌≡◌, Bool, true, false, Option,
  none, some,
}
use linux_programing_demo.Threads.Family.{update}

-- Where a thread stands: before its creation; `_readFunc` before each of the two calls and before the
-- test; `_writerFunc` at the head of its loop, before the load and the store of `counter++`, before the
-- unlock, and before it sets `producerExit`.
pub data Pc : Type 0 where
  unborn : Pc
  r_lock : Pc
  r_unlock : Pc
  r_test : Pc
  r_done : Pc
  w_head : ℕ → Pc
  w_load : ℕ → Pc
  w_store : ℕ → ℕ → Pc
  w_unlock : ℕ → Pc
  w_exit : Pc
  w_done : Pc

-- `main`: before the creation of a thread, before the join of one, or after the last printf.
pub data Main : Type 0 where
  creating : ℕ → Main
  joining : ℕ → Main
  printed : ℕ → Main

-- The lock has the number of readers that hold it, and the writer that holds it.
pub record System : Type 0 where
  pub readers : ℕ
  pub writer : Option ℕ
  pub counter : ℕ
  pub producer_exit : Bool
  pub pc : ℕ → Pc
  pub main : Main

abbrev pub init : System
init = record {
  readers = 0;
  writer = none;
  counter = 0;
  producer_exit = false;
  pc = λ _. unborn;
  main = creating 0;
}

-- A `long`, whose values here are not negative.
abbrev pub u64 : ℕ → ℕ
u64 n = n % 2 ^ 64

abbrev pub go : ℕ → Pc → System → Option System
go t p s = some (record s { pc = update s.pc t p })

-- `pthread_rwlock_rdlock` and `pthread_rwlock_wrlock` block with none.
unfoldable pub rdlock : System → Option System
rdlock s = elim s.writer [ none ↦ some (record s { readers = s.readers + 1 }) | some u ↦ none ]

unfoldable pub wrlock : ℕ → System → Option System
wrlock t s = elim s.writer [
  | none ↦ if s.readers == 0 then some (record s { writer = some t }) else none
  | some u ↦ none
]

-- The next step of `_readFunc`, or of `_writerFunc`, in thread `t`.
unfoldable pub advance : ℕ → ℕ → Pc → System → Option System
unfolding rdlock wrlock
advance max t r_lock s = rdlock s >>= go t r_unlock
advance max t r_unlock s = go t r_test (record s { readers = s.readers - 1 })
advance max t r_test s = if s.counter == u64 (max * 2) then go t r_done s else go t r_lock s
advance max t (w_head i) s = if ltb i max then wrlock t s >>= go t (w_load i) else go t w_exit s
advance max t (w_load i) s = go t (w_store i s.counter) s
advance max t (w_store i v) s = go t (w_unlock i) (record s { counter = u64 (v + 1) })
advance max t (w_unlock i) s = go t (w_head (i + 1)) (record s { writer = none })
advance max t w_exit s = go t w_done (record s { producer_exit = true })
advance max t _ s = none

-- The start routine of the thread that `main` creates as the `t`-th.
unfoldable pub routine : ℕ → Pc
routine t = if t % 2 == 0 then w_head 0 else r_lock

abbrev pub is_ended : Pc → Bool
is_ended r_done = true
is_ended w_done = true
is_ended _ = false

unfoldable pub master : Main → System → Option System
unfolding routine
master (creating k) s =
    if ltb k 4
    then some (record s { pc = update s.pc k (routine k); main = creating (k + 1) })
    else some (record s { main = joining 0 })
master (joining k) s =
    if ltb k 4
    then (if is_ended (s.pc k) then some (record s { main = joining (k + 1) }) else none)
    else some (record s { main = printed s.counter })
master (printed v) s = none

-- All runs of the program.
pub data Reach (max : ℕ) : System → Type 0 where
  begin : Reach max init
  act :
      {s : System} (s' : System) (t : ℕ)
      → Reach max s
      → t < 4
      → advance max t (s.pc t) s ≡ some s'
      → Reach max s'
  lead : {s : System} (s' : System) → Reach max s → master s.main s ≡ some s' → Reach max s'
