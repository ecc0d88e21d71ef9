-- ===== src/Examples/Sysv.antt =====
-- A run of process/system-v-ipc/semaphore/main.c.
use linux_programing_demo.Common.{ℕ, zero, suc, ◌≤◌, ◌<◌, ◌≡◌, refl, sym, subst, true, some, arith}
use linux_programing_demo.Ipc.SysvSemaphore.{
  Pc, start, creating, setting, opening, ready, holding, posted, holding_again, tried, exited,
  failed, System, semop_wait, semop_add, advance, act, refuse, Reach, begin, next,
}
use linux_programing_demo.Ipc.SysvSemaphore.Exclusion.{
  uses, holds, Ended, semaphore_safe, semaphore_restored,
}

goes :
    {s s' : System}
    → Reach 2 s
    → (t : ℕ) (p : Pc) → t < 2
    → s.pc t ≡ p
    → advance t p s ≡ some s'
    → Reach 2 s'
goes {s} {s'} r t p lt e h = next s' r (act t lt (rw e h))

-- Process 0 creates the semaphore and ends; process 1 opens it and has it once.
abbrev Safe : System → Type 0
Safe s =
    ((t : ℕ) → uses (s.pc t) ≡ true → (s.otime ≡ true) × (s.value ≤ 1))
    × ((t u : ℕ) → t < 2 → u < 2 → holds (s.pc t) ≡ true → holds (s.pc u) ≡ true → t ≡ u)

one_holds : (s : System) × Reach 2 s × (s.pc 0 ≡ exited) × (s.pc 1 ≡ holding)
unfolding advance semop_wait semop_add
one_holds =
    let r1 = goes begin 0 start (omega arith) refl refl in
    let r2 = goes r1 0 creating (omega arith) refl refl in
    let r3 = goes r2 0 setting (omega arith) refl refl in
    let r4 = goes r3 0 ready (omega arith) refl refl in
    let r5 = goes r4 0 holding (omega arith) refl refl in
    let r6 = goes r5 0 posted (omega arith) refl refl in
    let r7 = goes r6 0 holding_again (omega arith) refl refl in
    let r8 = goes r7 0 tried (omega arith) refl refl in
    let r9 = goes r8 1 start (omega arith) refl refl in
    let r10 = goes r9 1 (opening 2) (omega arith) refl refl in
    let r11 = goes r10 1 ready (omega arith) refl refl in (_, r11, refl, refl)

semaphore_safe_example : Safe one_holds.0
semaphore_safe_example = semaphore_safe 2 one_holds.0 one_holds.1

-- Process 0 creates the semaphore and ends, and `semget` is refused to process 1.
last_run : (s : System) × Reach 2 s × (s.pc 0 ≡ exited) × (s.pc 1 ≡ failed) × (s.otime ≡ true)
unfolding advance semop_wait semop_add
last_run =
    let r1 = goes begin 0 start (omega arith) refl refl in
    let r2 = goes r1 0 creating (omega arith) refl refl in
    let r3 = goes r2 0 setting (omega arith) refl refl in
    let r4 = goes r3 0 ready (omega arith) refl refl in
    let r5 = goes r4 0 holding (omega arith) refl refl in
    let r6 = goes r5 0 posted (omega arith) refl refl in
    let r7 = goes r6 0 holding_again (omega arith) refl refl in
    let r8 = goes r7 0 tried (omega arith) refl refl in
    let r9 = next _ r8 (refuse 1 (omega arith) refl refl) in (_, r9, refl, refl, refl)

last_run-Ended : (t : ℕ) → t < 2 → Ended (last_run.0.pc t)
last_run-Ended zero lt = subst Ended (sym last_run.2) tt
last_run-Ended (suc zero) lt = subst Ended (sym last_run.3) tt
last_run-Ended (suc (suc t)) lt = absurd (omega (arith, lt))

semaphore_restored_example : last_run.0.value ≡ 1
semaphore_restored_example = semaphore_restored 2 last_run.0 last_run.1 last_run-Ended last_run.4
