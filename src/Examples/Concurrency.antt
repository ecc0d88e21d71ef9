-- ===== src/Examples/Concurrency.antt =====
-- Runs of the programs of thread/ and of process/system-v-ipc/semaphore.
use linux_programing_demo.Common.{ℕ, suc, ◌*◌, ◌<◌, ◌≡◌, refl, ap, none, some, arith}
use linux_programing_demo.Threads.LockedCounter.{
  System, head, locked, IsDone, init, advance, step, Reach,
}
use linux_programing_demo.Threads.LockedCounter.Invariant.{critical}
use linux_programing_demo.Threads.LockedCounter.Outcome.{mutual_exclusion, stuck_complete}
use linux_programing_demo.Threads.Mutex.{mutex, mutex_lock, mutex_unlock}

abbrev Run : ℕ → System mutex 1 100 → Type 0
Run k s = Reach mutex 1 100 2 k s

moved :
    {k : ℕ} {s s' : System mutex 1 100}
    → Run k s
    → (t : ℕ) → t < 2
    → step mutex 1 100 t s ≡ some s'
    → Run (suc k) s'
moved {s' = s'} r t lt h = Reach.next s' t r lt h

one_holds : (s : System mutex 1 100) × Run 1 s × (s.pc 0 ≡ locked 0)
unfolding init step advance mutex mutex_lock
one_holds = (_, moved Reach.start 0 (omega arith) refl, refl)

mutual_exclusion_example : ◌≡◌ {A = ℕ} 0 0
mutual_exclusion_example =
    mutual_exclusion mutex 1 100 2 1 one_holds.0 (omega arith) one_holds.1 0 0
      (ap critical one_holds.2) (ap critical one_holds.2)

-- Thread 1 runs after thread 0.
both_run :
    (s : System mutex 1 100) × Run 8 s × ((t : ℕ) → t < 2 → s.pc t ≡ head 1) × (s.counter ≡ 2)
unfolding init step advance mutex mutex_lock mutex_unlock
both_run =
    let r1 = moved Reach.start 0 (omega arith) refl in
    let r2 = moved r1 0 (omega arith) refl in
    let r3 = moved r2 0 (omega arith) refl in
    let r4 = moved r3 0 (omega arith) refl in
    let r5 = moved r4 1 (omega arith) refl in
    let r6 = moved r5 1 (omega arith) refl in
    let r7 = moved r6 1 (omega arith) refl in
    let r8 = moved r7 1 (omega arith) refl in (_, r8, λ t lt. ground arith, refl)

both_stuck : (t : ℕ) → t < 2 → step mutex 1 100 t both_run.0 ≡ none
unfolding step advance
both_stuck t lt = rw (both_run.2 t lt) refl

stuck_complete_example :
    ((t : ℕ) → t < 2 → IsDone 1 (both_run.0.pc t)) × (both_run.0.counter ≡ 2 * 1)
stuck_complete_example =
    stuck_complete mutex 1 100 2 8 both_run.0 (omega arith) both_run.1 both_stuck
