-- ===== src/Threads/Semaphore/Binary.antt =====
-- The semaphore as thread/semaphore/main.c uses it: each thread waits, then posts, any number of
-- times. Then it is a lock, and no wake-up is lost.
pub mod Advance
pub mod Signals
pub mod Outcome
use linux_programing_demo.Common.{
  if◌then◌else◌, ℕ, ◌+◌, ◌-◌, ◌<◌, ◌≡◌, ◌≢◌, Bool, true, false, some, List, [], ◌∷◌,
}
use native.Mathlib.Nat.{mod-eq_of_lt}
use linux_programing_demo.Threads.Family.{update, total, total-update, total-const}
use linux_programing_demo.Threads.Semaphore.{
  Op, wait, post, Pc, idle, wait_test, wait_sleep, wait_woken, wait_dec, wait_unlock, post_test,
  post_signal, post_inc, post_unlock, System, u32, create, lock_then, advance, Sleeps, Step, act,
  signal, signal_nobody, Event, step, spurious, Reach, start, next,
}

-- Rounds of a wait and a post.
abbrev pub Rounds : List Op → Type 0
Rounds [] = Unit
Rounds (wait ∷ post ∷ ops) = Rounds ops
Rounds _ = ⊥

-- One post, then rounds.
abbrev pub PostRounds : List Op → Type 0
PostRounds (post ∷ ops) = Rounds ops
PostRounds _ = ⊥

-- Is the thread between its `count--` and the `count++` that follows?
abbrev pub inside : Pc → Bool
inside (idle (post ∷ ops)) = true
inside (wait_unlock ops) = true
inside (post_test ops) = true
inside (post_signal ops) = true
inside (post_inc ops) = true
inside _ = false

abbrev pub tokens : Pc → ℕ
tokens p = if inside p then 1 else 0

abbrev pub owns_mutex : Pc → Bool
owns_mutex (idle ops) = false
owns_mutex (wait_sleep ops) = false
owns_mutex (wait_woken ops) = false
owns_mutex _ = true

-- What is left to call fits the place that the thread is in.
abbrev pub Follows : Pc → Type 0
Follows (idle (post ∷ ops)) = Rounds ops
Follows (idle ops) = Rounds ops
Follows (wait_test ops) = PostRounds ops
Follows (wait_sleep ops) = PostRounds ops
Follows (wait_woken ops) = PostRounds ops
Follows (wait_dec ops) = PostRounds ops
Follows (wait_unlock ops) = PostRounds ops
Follows (post_test ops) = Rounds ops
Follows (post_signal ops) = Rounds ops
Follows (post_inc ops) = Rounds ops
Follows (post_unlock ops) = Rounds ops

-- A thread that is awake on its way to test the count.
abbrev pub alert : Pc → Bool
alert (wait_woken ops) = true
alert (wait_test ops) = true
alert (wait_dec ops) = true
alert _ = false

abbrev pub CountFits : ℕ → Pc → Type 0
CountFits c (wait_dec ops) = c ≢ 0
CountFits c _ = Unit

abbrev pub Incrementing : Pc → Type 0
Incrementing (post_inc ops) = Unit
Incrementing _ = ⊥

pub record Inv (n : ℕ) (s : System) : Type 0 where
  pub owner : (t : ℕ) → owns_mutex (s.pc t) ≡ true → s.mutex ≡ some t
  pub owned : (t : ℕ) → s.mutex ≡ some t → (owns_mutex (s.pc t) ≡ true) × (t < n)
  pub token : s.count + total tokens n s.pc ≡ 1
  pub follows : (t : ℕ) → Follows (s.pc t)
  pub fits : (t : ℕ) → CountFits s.count (s.pc t)
  -- Where the count is not 0 or is about to grow, a sleeping thread is not alone.
  pub watched :
      (u : ℕ) → u < n → Sleeps (s.pc u) → s.count ≢ 0 → (v : ℕ) × (v < n) × (alert (s.pc v) ≡ true)
  pub promised :
      (t u : ℕ)
      → u < n
      → Incrementing (s.pc t)
      → Sleeps (s.pc u)
      → (v : ℕ) × (v < n) × (alert (s.pc v) ≡ true)
