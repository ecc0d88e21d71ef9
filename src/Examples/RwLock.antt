-- ===== src/Examples/RwLock.antt =====
-- A run of thread/rw-lock/main.c with one round for each writer.
use linux_programing_demo.Common.{ℕ, ◌+◌, ◌*◌, ◌<◌, ◌≡◌, refl, ◌≢◌, true, none, some, arith}
use linux_programing_demo.Threads.RwLock.{
  r_unlock, r_done, w_load, System, advance, routine, is_ended, master, rdlock, wrlock, printed,
  Reach, begin, act, lead,
}
use linux_programing_demo.Threads.RwLock.Invariant.{writes, rounds}
use linux_programing_demo.Threads.RwLock.Outcome.{lock_respected, rw_lock_complete}

moves :
    {s s' : System} → Reach 1 s → (t : ℕ) → t < 4 → advance 1 t (s.pc t) s ≡ some s' → Reach 1 s'
moves {s' = s'} r t lt h = act s' t r lt h

leads : {s s' : System} → Reach 1 s → master s.main s ≡ some s' → Reach 1 s'
leads {s' = s'} r h = lead s' r h

-- All four threads are created, and writer 0 has the lock.
one_writes : (s : System) × Reach 1 s × (s.pc 0 ≡ w_load 0)
unfolding advance routine master rdlock wrlock
one_writes =
    let c1 = leads begin refl in
    let c2 = leads c1 refl in
    let c3 = leads c2 refl in
    let c4 = leads c3 refl in let c5 = leads c4 refl in (_, moves c5 0 (omega arith) refl, refl)

lock_respected_example :
    ((t u : ℕ) → writes (one_writes.0.pc t) ≡ true → writes (one_writes.0.pc u) ≡ true → t ≡ u)
    × ((t u : ℕ) → u < 4 → writes (one_writes.0.pc t) ≡ true → one_writes.0.pc u ≢ r_unlock)
    × (one_writes.0.counter ≡ rounds 1 (one_writes.0.pc 0) + rounds 1 (one_writes.0.pc 2))
    × ((t : ℕ) → one_writes.0.pc t ≡ r_done → one_writes.0.counter ≡ 2 * 1)
lock_respected_example = lock_respected 1 one_writes.0 (omega arith) one_writes.1

-- The writers end, the readers see the last value, and `main` joins all four.
all_end :
    (s : System) × Reach 1 s
    × ((t : ℕ) → t < 4 → advance 1 t (s.pc t) s ≡ none)
    × (master s.main s ≡ none)
unfolding advance routine master rdlock wrlock one_writes
all_end =
    let w1 = moves one_writes.1 0 (omega arith) refl in
    let w2 = moves w1 0 (omega arith) refl in
    let w3 = moves w2 0 (omega arith) refl in
    let w4 = moves w3 0 (omega arith) refl in
    let w5 = moves w4 0 (omega arith) refl in
    let v1 = moves w5 2 (omega arith) refl in
    let v2 = moves v1 2 (omega arith) refl in
    let v3 = moves v2 2 (omega arith) refl in
    let v4 = moves v3 2 (omega arith) refl in
    let v5 = moves v4 2 (omega arith) refl in
    let v6 = moves v5 2 (omega arith) refl in
    let r1 = moves v6 1 (omega arith) refl in
    let r2 = moves r1 1 (omega arith) refl in
    let r3 = moves r2 1 (omega arith) refl in
    let q1 = moves r3 3 (omega arith) refl in
    let q2 = moves q1 3 (omega arith) refl in
    let q3 = moves q2 3 (omega arith) refl in
    let j1 = leads q3 refl in
    let j2 = leads j1 refl in
    let j3 = leads j2 refl in
    let j4 = leads j3 refl in let j5 = leads j4 refl in (_, j5, λ t lt. ground arith, refl)

rw_lock_complete_example :
    (all_end.0.main ≡ printed (2 * 1)) × ((t : ℕ) → t < 4 → is_ended (all_end.0.pc t) ≡ true)
rw_lock_complete_example = rw_lock_complete 1 all_end.0 (omega arith) all_end.1 all_end.2 all_end.3
