-- ===== src/Threads/Semaphore.antt =====
-- thread/semaphore/sem.c: a counting semaphore from a mutex, a condition variable and a count,
-- as threads (or processes that map the same file) that call `semaphore_wait` and `semaphore_post`.
-- A step is one call of pthread or one access to `count`; `semaphore_create` makes the count 1.
pub mod Binary
pub mod LostWakeup
pub mod Program
use linux_programing_demo.Common.{
  ◌==◌, if◌then◌else◌, take, ℕ, ◌+◌, ◌-◌, ◌%◌, ◌^◌, ◌<◌, ◌≡◌, not, Option, none, some, List, [],
  ◌∷◌, ◌++◌,
}
use linux_programing_demo.Threads.Family.{update}

-- The calls that a thread still has to make.
pub data Op : Type 0 where
  wait post : Op

-- Where a thread stands, with the calls after the one that it is in.
pub data Pc : Type 0 where
  idle : List Op → Pc
  wait_test : List Op → Pc  -- owns the mutex, before `while (sem->count == 0)`
  wait_sleep : List Op → Pc  -- in `pthread_cond_wait`, not signalled yet
  wait_woken : List Op → Pc  -- in `pthread_cond_wait`, to take the mutex again
  wait_dec : List Op → Pc  -- before `sem->count--`
  wait_unlock : List Op → Pc
  post_test : List Op → Pc  -- owns the mutex, before `if (sem->count == 0)`
  post_signal : List Op → Pc
  post_inc : List Op → Pc  -- before `sem->count++`
  post_unlock : List Op → Pc

-- `mutex` is the owner of `sem->lock`.
pub record System : Type 0 where
  pub mutex : Option ℕ
  pub count : ℕ
  pub pc : ℕ → Pc

abbrev pub u32 : ℕ → ℕ
u32 n = n % 2 ^ 32

-- `semaphore_create`, and thread `t` with the calls `program t`.
abbrev pub create : (ℕ → List Op) → System
create program = record { mutex = none; count = 1; pc = λ t. idle (program t) }

-- Thread `t` takes the mutex and goes on at `p`, if the mutex is free.
unfoldable pub lock_then : ℕ → Pc → System → Option System
lock_then t p s = elim s.mutex [
  | none ↦ some (record s { mutex = some t; pc = update s.pc t p })
  | some u ↦ none
]

abbrev go : ℕ → Pc → System → Option System
go t p s = some (record s { pc = update s.pc t p })

abbrev unlock_then : ℕ → Pc → System → Option System
unlock_then t p s = some (record s { mutex = none; pc = update s.pc t p })

-- The next step of a thread, but for the signal, which also moves another thread.
unfoldable pub advance : ℕ → Pc → System → Option System
unfolding lock_then
advance t (idle []) s = none
advance t (idle (wait ∷ ops)) s = lock_then t (wait_test ops) s
advance t (idle (post ∷ ops)) s = lock_then t (post_test ops) s
advance t (wait_test ops) s =
    if s.count == 0 then unlock_then t (wait_sleep ops) s else go t (wait_dec ops) s
advance t (wait_sleep ops) s = none
advance t (wait_woken ops) s = lock_then t (wait_test ops) s
advance t (wait_dec ops) s =
    some (record s { count = u32 (s.count + 2 ^ 32 - 1); pc = update s.pc t (wait_unlock ops) })
advance t (wait_unlock ops) s = unlock_then t (idle ops) s
advance t (post_test ops) s =
    if s.count == 0 then go t (post_signal ops) s else go t (post_inc ops) s
advance t (post_signal ops) s = none
advance t (post_inc ops) s =
    some (record s { count = u32 (s.count + 1); pc = update s.pc t (post_unlock ops) })
advance t (post_unlock ops) s = unlock_then t (idle ops) s

abbrev pub Sleeps : Pc → Type 0
Sleeps (wait_sleep ops) = Unit
Sleeps _ = ⊥

-- One step of `n` threads. `pthread_cond_signal` wakes a sleeping thread, if there is one.
pub data Step (n : ℕ) (s s' : System) : Type 0 where
  act : (t : ℕ) → t < n → advance t (s.pc t) s ≡ some s' → Step n s s'
  signal :
      (t u : ℕ) (ops ops' : List Op)
      → t < n
      → u < n
      → s.pc t ≡ post_signal ops
      → s.pc u ≡ wait_sleep ops'
      → s' ≡ record s { pc = update (update s.pc u (wait_woken ops')) t (post_inc ops) }
      → Step n s s'
  signal_nobody :
      (t : ℕ) (ops : List Op)
      → t < n
      → s.pc t ≡ post_signal ops
      → ((u : ℕ) → u < n → ¬ (Sleeps (s.pc u)))
      → s' ≡ record s { pc = update s.pc t (post_inc ops) }
      → Step n s s'

-- A step, or a wake-up that nobody signalled, which POSIX allows.
pub data Event (n : ℕ) (s s' : System) : Type 0 where
  step : Step n s s' → Event n s s'
  spurious :
      (u : ℕ) (ops : List Op)
      → u < n
      → s.pc u ≡ wait_sleep ops
      → s' ≡ record s { pc = update s.pc u (wait_woken ops) }
      → Event n s s'

pub data Reach (n : ℕ) (program : ℕ → List Op) : System → Type 0 where
  start : Reach n program (create program)
  next : {s : System} (s' : System) → Reach n program s → Event n s s' → Reach n program s'
