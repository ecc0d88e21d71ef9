-- ===== src/Examples/Shared.antt =====
-- Runs of the shared memory programs and of the message queue.
use linux_programing_demo.Common.{ℕ, ◌+◌, ◌*◌, ◌≤◌, ◌<◌, ◌≡◌, refl, ◌≢◌, some, arith}
use linux_programing_demo.Threads.Family.{total}
use linux_programing_demo.Ipc.SharedMemory
use linux_programing_demo.Ipc.SharedMemory.Sysv.{rounds, rounds_counted}
use linux_programing_demo.Ipc.SharedMemory.LostCounts.{counts_lost}
use linux_programing_demo.Ipc.MsgQueue

moves :
    {s s' : SharedMemory.System}
    → SharedMemory.Reach (SharedMemory.advance_sysv 1) 2 s
    → (t : ℕ) → t < 2
    → SharedMemory.advance_sysv 1 t (s.pc t) s ≡ some s'
    → SharedMemory.Reach (SharedMemory.advance_sysv 1) 2 s'
moves {s' = s'} r t lt h = SharedMemory.act s' t r lt h

-- Each process has counted its round, and one has printed.
both_count : (s : SharedMemory.System) × SharedMemory.Reach (SharedMemory.advance_sysv 1) 2 s
unfolding SharedMemory.advance_sysv SharedMemory.count
both_count =
    let r1 = moves SharedMemory.begin 0 (omega arith) refl in
    let r2 = moves r1 1 (omega arith) refl in
    let r3 = moves r2 0 (omega arith) refl in
    let r4 = moves r3 1 (omega arith) refl in
    let r5 = moves r4 0 (omega arith) refl in
    let r6 = moves r5 1 (omega arith) refl in (_, moves r6 0 (omega arith) refl)

rounds_counted_example :
    (both_count.0.number ≡ total (rounds 1) 2 both_count.0.pc)
    × ((t : ℕ) → both_count.0.pc t ≢ SharedMemory.killed)
    × ((t v : ℕ) → both_count.0.pc t ≡ SharedMemory.printed v → v ≤ both_count.0.number)
    × ((t : ℕ) (s' : SharedMemory.System)
        → t < 2
        → ((u : ℕ) → u < 2 → rounds 1 (both_count.0.pc u) ≡ 1)
        → both_count.0.pc t ≡ SharedMemory.counting 1
        → SharedMemory.advance_sysv 1 t (both_count.0.pc t) both_count.0 ≡ some s'
        → s'.pc t ≡ SharedMemory.printed (2 * 1))
rounds_counted_example = rounds_counted 2 1 both_count.0 (omega arith) both_count.1

-- The reader makes 3 of its 10 rounds before the creator's reset.
counts_lost_example :
    (s : SharedMemory.System) × SharedMemory.Reach (SharedMemory.advance 10) 2 s
    × (s.pc 0 ≡ SharedMemory.counting 10)
    × (s.pc 1 ≡ SharedMemory.counting 10)
    × (s.number + 3 ≡ 2 * 10)
counts_lost_example = counts_lost 10 3 (omega arith) (omega arith)
