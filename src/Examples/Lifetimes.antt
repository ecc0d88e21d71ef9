-- ===== src/Examples/Lifetimes.antt =====
-- The detached thread of thread/basic/main.c, and runs of signal/main.c.
use linux_programing_demo.Common.{pos, ◌≡◌, refl, ◌↔◌, true, some, [], ◌∷◌}
use linux_programing_demo.Threads.Detached.{fresh}
use linux_programing_demo.Threads.Detached.Outcome.{holds, EndsAt, detached_anywhere}
use linux_programing_demo.Signal.{
  System, Reach, begin, next, interrupt, step, arrive, received, after_sleep, first, second, awake,
  killed,
}

detached_anywhere_example : EndsAt (fresh 5) ↔ (holds 5 (fresh 5) ≡ true)
detached_anywhere_example = detached_anywhere (fresh 5)

steps : {s s' : System} → Reach s → step true (pos 0) s.main s ≡ some s' → Reach s'
steps {s' = s'} r h = next s' true (pos 0) r h

-- A SIGINT before the first call ends the process.
killed_early : (s : System) × Reach s × (s.main ≡ killed)
unfolding arrive
killed_early = (_, interrupt begin refl, refl)

-- One in the first sleep changes nothing, and one in the second ends that sleep.
woken :
    (s : System) × Reach s × (s.main ≡ awake second) × (s.lines ≡ received ∷ after_sleep first ∷ [])
unfolding step arrive
woken =
    let r1 = steps begin refl in
    let r2 = interrupt r1 refl in
    let r3 = steps r2 refl in
    let r4 = steps r3 refl in let r5 = steps r4 refl in (_, interrupt r5 refl, refl, refl)
