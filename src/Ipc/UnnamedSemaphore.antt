-- ===== src/Ipc/UnnamedSemaphore.antt =====
-- process/posix-ipc/semaphore/unnamed.c: the creator and a reader of one shared mapping, which count
-- under a process-shared semaphore, from the creator's `sem_init` on. No call is interrupted.
pub mod Startup
pub mod Orderly
pub mod Refinement
use linux_programing_demo.Common.{
  ℕ, zero, suc, ◌+◌, ◌*◌, ◌^◌, ◌<◌, ◌≡◌, refl, Option, none, some, arith,
}
use linux_programing_demo.Threads.LockedCounter.{
  Lock, Acquired, granted, blocks, System, Reach, IsDone, step,
}
use linux_programing_demo.Threads.LockedCounter.Outcome.{stuck_complete}

-- `sem_wait` at a value.
unfoldable pub sem_wait : ℕ → ℕ → Acquired ℕ
sem_wait t zero = blocks
sem_wait t (suc v) = granted v

-- `sem_post`
unfoldable pub sem_post : ℕ → ℕ → Option ℕ
sem_post t v = some (v + 1)

-- `sem_init(sem, pshared, 1)`, as the lock of the loop.
unfoldable pub semaphore : Lock
unfolding sem_wait sem_post
semaphore = record {
  State = ℕ;
  free = 1;
  held = λ t. 0;
  acquire = sem_wait;
  release = sem_post;
  acquire-free = λ t. refl;
  acquire-held = λ t u ne. refl;
  release-held = λ t. refl;
}

-- The two processes, each with `maxTestCount` rounds; `*number` is an `int`, of which the values
-- below 2 ^ 31 are positive.
abbrev pub Processes : (max k : ℕ) → System semaphore max (2 ^ 32) → Type 0
Processes max k s = Reach semaphore max (2 ^ 32) 2 k s

-- When neither process can go on, both have left their loops, and the number that the last one
-- prints is twice `maxTestCount`, no increment being lost, if that is a value of an `int`.
pub Processes-number :
    (max k : ℕ) (s : System semaphore max (2 ^ 32))
    → 2 * max < 2 ^ 31
    → Processes max k s
    → ((t : ℕ) → t < 2 → step semaphore max (2 ^ 32) t s ≡ none)
    → ((t : ℕ) → t < 2 → IsDone max (s.pc t)) × (s.counter ≡ 2 * max)
Processes-number max k s fits r stuck =
    stuck_complete semaphore max (2 ^ 32) 2 k s (omega (arith, fits)) r stuck
