-- ===== src/Examples/Semaphores.antt =====
-- Runs of thread/semaphore/sem.c and of process/system-v-ipc/semaphore/main.c.
use linux_programing_demo.Common.{
  ◌==◌, if◌then◌else◌, ℕ, ◌≤◌, ◌<◌, ◌≡◌, refl, subst, ◌≢◌, true, none, some, List, [], ◌∷◌, arith,
}
use linux_programing_demo.Threads.Semaphore.{
  Op, wait, post, Pc, idle, wait_test, wait_sleep, wait_dec, wait_unlock, post_test, post_inc,
  post_unlock, System, lock_then, advance, Step, act, signal, signal_nobody, step, Reach, start,
  next,
}
use linux_programing_demo.Threads.Semaphore.Binary.{Rounds, inside}
use linux_programing_demo.Threads.Semaphore.Binary.Outcome.{binary_exclusion, binary_complete}
use linux_programing_demo.Threads.Semaphore.LostWakeup.{goes, second_post_lost}

abbrev one_round : ℕ → List Op
one_round t = wait ∷ post ∷ []

-- One thread waits and posts.
alone : (s : System) × Reach 1 one_round s × (s.mutex ≡ none) × (s.count ≡ 1) × (s.pc 0 ≡ idle [])
unfolding advance lock_then
alone =
    let r1 = goes 1 one_round start 0 (idle (wait ∷ post ∷ [])) (omega arith) refl refl in
    let r2 = goes 1 one_round r1 0 (wait_test (post ∷ [])) (omega arith) refl refl in
    let r3 = goes 1 one_round r2 0 (wait_dec (post ∷ [])) (omega arith) refl refl in
    let r4 = goes 1 one_round r3 0 (wait_unlock (post ∷ [])) (omega arith) refl refl in
    let r5 = goes 1 one_round r4 0 (idle (post ∷ [])) (omega arith) refl refl in
    let r6 = goes 1 one_round r5 0 (post_test []) (omega arith) refl refl in
    let r7 = next _ r6 (step (signal_nobody 0 [] (omega arith) refl (λ u lt. ground arith) refl)) in
    let r8 = goes 1 one_round r7 0 (post_inc []) (omega arith) refl refl in
    let r9 = goes 1 one_round r8 0 (post_unlock []) (omega arith) refl refl in
    (_, r9, refl, refl, refl)

only_zero : (t : ℕ) → t < 1 → 0 ≡ t
only_zero t lt = omega (arith, lt)

alone_ended : (t : ℕ) → t < 1 → alone.0.pc t ≡ idle []
alone_ended t lt = subst (λ k. alone.0.pc k ≡ idle []) (only_zero t lt) alone.4

alone_stuck : (s' : System) → ¬ (Step 1 alone.0 s')
unfolding advance
alone_stuck s' (act t lt h) = cc (h, alone_ended t lt)
alone_stuck s' (signal t u ops ops' lt ltu e e' same) = cc (e, alone_ended t lt)
alone_stuck s' (signal_nobody t ops lt e quiet same) = cc (e, alone_ended t lt)

one_round-Rounds : (t : ℕ) → Rounds (one_round t)
one_round-Rounds t = tt

binary_complete_example :
    ((t : ℕ) → t < 1 → alone.0.pc t ≡ idle []) × (alone.0.mutex ≡ none) × (alone.0.count ≡ 1)
binary_complete_example = binary_complete 1 one_round alone.0 one_round-Rounds alone.1 alone_stuck

binary_exclusion_example :
    (alone.0.count ≤ 1)
    × ((t u : ℕ)
        → t < 1
        → u < 1
        → inside (alone.0.pc t) ≡ true
        → inside (alone.0.pc u) ≡ true
        → (t ≡ u) × (alone.0.count ≡ 0))
binary_exclusion_example = binary_exclusion 1 one_round alone.0 one_round-Rounds alone.1

-- Thread 0 has the semaphore when threads 1 and 2 wait, and is to post twice.
abbrev unequal : ℕ → List Op
unequal t = if t == 0 then wait ∷ post ∷ post ∷ [] else wait ∷ []

both_sleep :
    (f : ℕ → Pc) × (f 0 ≡ post_test (post ∷ []))
    × (f 1 ≡ wait_sleep [])
    × (f 2 ≡ wait_sleep [])
    × Reach 3 unequal (record { mutex = some 0; count = 0; pc = f })
unfolding advance lock_then
both_sleep =
    let r1 = goes 3 unequal start 0 (idle (wait ∷ post ∷ post ∷ [])) (omega arith) refl refl in
    let r2 = goes 3 unequal r1 0 (wait_test (post ∷ post ∷ [])) (omega arith) refl refl in
    let r3 = goes 3 unequal r2 0 (wait_dec (post ∷ post ∷ [])) (omega arith) refl refl in
    let r4 = goes 3 unequal r3 0 (wait_unlock (post ∷ post ∷ [])) (omega arith) refl refl in
    let r5 = goes 3 unequal r4 1 (idle (wait ∷ [])) (omega arith) refl refl in
    let r6 = goes 3 unequal r5 1 (wait_test []) (omega arith) refl refl in
    let r7 = goes 3 unequal r6 2 (idle (wait ∷ [])) (omega arith) refl refl in
    let r8 = goes 3 unequal r7 2 (wait_test []) (omega arith) refl refl in
    let r9 = goes 3 unequal r8 0 (idle (post ∷ post ∷ [])) (omega arith) refl refl in
    (_, refl, refl, refl, r9)

second_post_lost_example :
    (s : System) × Reach 3 unequal s
    × (s.mutex ≡ none)
    × (s.count ≡ 1)
    × (s.pc 0 ≡ idle [])
    × (s.pc 1 ≡ idle [])
    × (s.pc 2 ≡ wait_sleep [])
    × ((w : ℕ) → w ≢ 0 → w ≢ 1 → s.pc w ≡ both_sleep.0 w)
second_post_lost_example =
    second_post_lost 3 unequal 0 1 2 both_sleep.0 [] [] [] (omega arith) (omega arith) (omega arith)
      both_sleep.1 both_sleep.2 both_sleep.3 both_sleep.4
