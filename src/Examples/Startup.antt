-- ===== src/Examples/Startup.antt =====
-- Runs of process/posix-ipc/semaphore/unnamed.c and of thread/tls-tsd/main.c, a lock of io/file_lock/flock
-- and a reading of `clock`.
use linux_programing_demo.Common.{
  ltb, if◌then◌else◌, All, negsuc, ℕ, ◌+◌, ◌<◌, ◌≡◌, refl, ◌≢◌, true, false, some, [], ◌∷◌, arith,
}
use linux_programing_demo.Threads.Family.{total}
use linux_programing_demo.Ipc.UnnamedSemaphore.Startup.{
  System, Reach, advance, wait_at, begin, act, opened, killed, undefined,
}
use linux_programing_demo.Ipc.UnnamedSemaphore.Refinement.{LoopRun, orderly_refines}
use linux_programing_demo.Threads.ThreadData
use linux_programing_demo.Threads.ThreadData.Buffers.{times, has, IsOwn, buffers_accounted}
use linux_programing_demo.FileLock.Flock.{Kernel}
use linux_programing_demo.FileLock.Flock.Program.{run_main, all_shared}
use linux_programing_demo.FileLock.Flock.Released.{Restored, grantable, run_main-Restored}
use linux_programing_demo.Time.Ticks.{clock_ms}

moves :
    {s s' : System}
    → Reach 1 2 true s
    → (t : ℕ) → t < 2
    → (s.pc t ≡ opened → s.ready ≡ true)
    → advance 1 t (s.pc t) s ≡ some s'
    → Reach 1 2 true s'
moves {s' = s'} r t lt o h = act s' t r lt (λ e. o) h

-- The creator initialises the semaphore, then the other process has its round.
one_round : (s : System) × Reach 1 2 true s
unfolding advance wait_at
one_round =
    let r1 = moves begin 0 (omega arith) (λ e. cc) refl in
    let r2 = moves r1 1 (omega arith) (λ e. cc) refl in
    let r3 = moves r2 0 (omega arith) (λ e. cc) refl in
    let r4 = moves r3 0 (omega arith) (λ e. cc) refl in
    let r5 = moves r4 0 (omega arith) (λ e. cc) refl in
    let r6 = moves r5 1 (omega arith) (λ e. refl) refl in
    let r7 = moves r6 1 (omega arith) (λ e. cc) refl in
    let r8 = moves r7 1 (omega arith) (λ e. cc) refl in
    let r9 = moves r8 1 (omega arith) (λ e. cc) refl in (_, moves r9 1 (omega arith) (λ e. cc) refl)

orderly_refines_example :
    LoopRun 1 2 one_round.0
    × ((t : ℕ) → one_round.0.pc t ≢ killed)
    × ((t : ℕ) → one_round.0.pc t ≢ undefined)
orderly_refines_example = orderly_refines 1 2 one_round.0 one_round.1

zero_lt : 0 < 2
zero_lt = omega arith

one_lt : 1 < 2
one_lt = omega arith

func_moves :
    {s s' : ThreadData.System}
    → ThreadData.Reach s
    → (t : ℕ) → t < 2
    → ThreadData.is_running s.main ≡ true
    → ThreadData.func true t (s.threads t).pc (s.threads t) s ≡ some s'
    → ThreadData.Reach s'
func_moves {s' = s'} r t lt run h = ThreadData.act s' true t r lt run h

leads :
    {s s' : ThreadData.System}
    → ThreadData.Reach s
    → ThreadData.master true s.main s ≡ some s'
    → ThreadData.Reach s'
leads {s' = s'} r h = ThreadData.lead s' true r h

-- Both threads have their buffers, and the first one is gone.
one_gone : (s : ThreadData.System) × ThreadData.Reach s
unfolding ThreadData.func ThreadData.master ThreadData.clean_up
one_gone =
    let r1 = leads ThreadData.begin refl in
    let r2 = leads r1 refl in
    let r3 = leads r2 refl in
    let a1 = func_moves r3 0 zero_lt refl refl in
    let a2 = func_moves a1 0 zero_lt refl refl in
    let b1 = func_moves a2 1 one_lt refl refl in
    let b2 = func_moves b1 1 one_lt refl refl in
    let b3 = func_moves b2 1 one_lt refl refl in
    let a3 = func_moves b3 0 zero_lt refl refl in
    let a4 = func_moves a3 0 zero_lt refl refl in
    let a5 = func_moves a4 0 zero_lt refl refl in
    let a6 = func_moves a5 0 zero_lt refl refl in (_, func_moves a6 0 zero_lt refl refl)

buffers_accounted_example :
    ((b : ℕ)
      → times b one_gone.0.freed + total (has b) 2 one_gone.0.threads
        ≡ (if ltb b one_gone.0.next_buffer then 1 else 0))
    × All IsOwn one_gone.0.lines
buffers_accounted_example = buffers_accounted one_gone.0 one_gone.1

abbrev shared_file : Kernel
shared_file = record { fds = (0, 1) ∷ []; holders = (1, false) ∷ []; bound = 5 }

grants : grantable true shared_file.holders ≡ true
unfolding all_shared
grants = refl

run_main-Restored_example : Restored shared_file (run_main true true shared_file)
run_main-Restored_example =
    run_main-Restored shared_file (ground arith) (ground arith) true true grants

-- Three seconds of used time are shown as 1294 milliseconds below 0.
three_seconds : clock_ms 3000000 ≡ some (negsuc 1293)
unfolding clock_ms
three_seconds = refl
