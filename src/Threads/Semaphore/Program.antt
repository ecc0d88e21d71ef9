-- ===== src/Threads/Semaphore/Program.antt =====
-- thread/semaphore/main.c: processes that create or open the semaphore, wait, and post. That an opener
-- can map the file before its creator has filled it is left out.
use linux_programing_demo.Common.{
  if◌then◌else◌, ℕ, ◌<◌, ◌≡◌, Bool, true, false, none, List, [], ◌∷◌,
}
use linux_programing_demo.Threads.Semaphore.{Op, wait, post, idle, System, Reach, Step}
use linux_programing_demo.Threads.Semaphore.Binary.{Rounds}
use linux_programing_demo.Threads.Semaphore.Binary.Outcome.{binary_complete}

-- The start of `main`: -1 when both `semaphore_create` and `semaphore_open` give NULL, or the rest with
-- `createNew`.
pub data Started : Type 0 where
  open_failed : Started
  started : Bool → Started

unfoldable pub start_main : Bool → Bool → Started
start_main creates opens =
    if creates then started true else if opens then started false else open_failed

-- The calls of the semaphore after it.
unfoldable pub calls : Started → List Op
calls open_failed = []
calls (started create_new) = wait ∷ post ∷ []

-- Only the creator unlinks the file.
unfoldable pub unlinks : Started → Bool
unlinks open_failed = false
unlinks (started create_new) = create_new

calls-Rounds : (p : Started) → Rounds (calls p)
unfolding calls
calls-Rounds open_failed = tt
calls-Rounds (started create_new) = tt

-- However n processes interleave that have a semaphore, or none: in a state where none can move but by a
-- spurious wake-up, every one has ended, the mutex is free and the count is 1 again.
pub programs_complete :
    (n : ℕ) (creates opens : ℕ → Bool) (s : System)
    → Reach n (λ t. calls (start_main (creates t) (opens t))) s
    → ((s' : System) → ¬ (Step n s s'))
    → ((t : ℕ) → t < n → s.pc t ≡ idle []) × (s.mutex ≡ none) × (s.count ≡ 1)
programs_complete n creates opens s r stuck =
    binary_complete n (λ t. calls (start_main (creates t) (opens t))) s
      (λ t. calls-Rounds (start_main (creates t) (opens t))) r stuck
