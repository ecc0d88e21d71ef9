-- ===== src/Examples/Cancellation.antt =====
-- A run of thread/cancel/main.c with three rounds.
use linux_programing_demo.Common.{◌≡◌, refl, ◌⊎◌, true, false, none, some, arith}
use linux_programing_demo.Threads.Cancel.{
  System, init, func, cancel, master, is_running, reported, gave_up, Run, here, act, stop, lead,
}
use linux_programing_demo.Threads.Cancel.Result.{is_past, IsStuck, request_acted}

moves :
    {s0 s s' : System}
    → Run 3 s0 s
    → is_running s.main ≡ true
    → func 3 s.child s ≡ some s'
    → Run 3 s0 s'
moves {s' = s'} r run h = act s' r run h

leads : {s0 s s' : System} → Run 3 s0 s → master true s.main s ≡ some s' → Run 3 s0 s'
leads {s' = s'} r h = lead s' true r h

-- The request comes in the first sleep, while the cancellation is disabled.
requested : (s : System) × Run 3 init s × (s.pending ≡ true) × (is_past 3 s.child ≡ false)
unfolding func master
requested =
    let r1 = leads here refl in
    let r2 = moves r1 refl refl in
    let r3 = moves r2 refl refl in
    let r4 = moves r3 refl refl in let r5 = leads r4 refl in (_, leads r5 refl, refl, refl)

-- The thread is cancelled in its second sleep, and joined.
joined : (s : System) × Run 3 requested.0 s × IsStuck 3 s
unfolding func master cancel requested
joined =
    let r1 = moves here refl refl in
    let r2 = moves r1 refl refl in
    let r3 = moves r2 refl refl in
    let r4 = stop _ r3 refl refl in (_, leads r4 refl, (refl, refl, refl))

request_acted_example : (joined.0.main ≡ reported none) ⊎ (joined.0.main ≡ gave_up)
request_acted_example =
    request_acted 3 requested.0 joined.0 (omega arith) requested.1 requested.2 requested.3 joined.1
      joined.2
