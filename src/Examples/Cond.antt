-- ===== src/Examples/Cond.antt =====
-- Runs of thread/cond/main.c.
use linux_programing_demo.Common.{◌+◌, ◌≤◌, ◌≡◌, refl, ◌⊎◌, true, none, some}
use linux_programing_demo.Threads.Cond.{
  Who, producer, consumer, p_done, c_wait, c_done, System, produce, consume, step, Reach, start,
  next,
}
use linux_programing_demo.Threads.Cond.Accounts.{produced, items_accounted, stuck_consumed}
use linux_programing_demo.Threads.Cond.Deadlock.{consumer_deadlock}

moves : {s s' : System} → Reach 1 s → (w : Who) → step 1 w s ≡ some s' → Reach 1 s'
moves {s' = s'} r w h = next s' w r h

-- One item is produced and consumed, and both threads end.
one_item :
    (s : System) × Reach 1 s
    × ((w : Who) → step 1 w s ≡ none)
    × (s.cons ≡ c_done)
    × (s.exhausted ≡ 1)
unfolding step produce consume
one_item =
    let r1 = moves start producer refl in
    let r2 = moves r1 producer refl in
    let r3 = moves r2 producer refl in
    let r4 = moves r3 producer refl in
    let r5 = moves r4 producer refl in
    let r6 = moves r5 producer refl in
    let c1 = moves r6 consumer refl in
    let c2 = moves c1 consumer refl in
    let c3 = moves c2 consumer refl in
    let c4 = moves c3 consumer refl in
    let c5 = moves c4 consumer refl in
    let c6 = moves c5 consumer refl in let c7 = moves c6 consumer refl in (_, c7, ended, refl, refl)
  where
    ended :
        (w : Who)
        → step 1 w (record {
          mutex = none;
          counter = 0;
          producer_exit = true;
          prod = p_done;
          cons = c_done;
          exhausted = 1;
        })
          ≡ none
    ended producer = refl
    ended consumer = refl

items_accounted_example :
    (one_item.0.exhausted + one_item.0.counter ≡ produced 1 one_item.0.prod)
    × (produced 1 one_item.0.prod ≤ 1)
    × (one_item.0.cons ≡ c_done
        → (one_item.0.prod ≡ p_done) × (one_item.0.exhausted ≡ 1) × (one_item.0.counter ≡ 0))
items_accounted_example = items_accounted 1 one_item.0 one_item.1

stuck_consumed_example :
    (one_item.0.prod ≡ p_done)
    × ((one_item.0.cons ≡ c_done) ⊎ (one_item.0.cons ≡ c_wait))
    × (one_item.0.exhausted ≡ 1)
    × (one_item.0.counter ≡ 0)
stuck_consumed_example = stuck_consumed 1 one_item.0 one_item.1 one_item.2

consumer_deadlock_example :
    (s : System) × Reach 1 s
    × (s.prod ≡ p_done)
    × (s.cons ≡ c_wait)
    × ((w : Who) → step 1 w s ≡ none)
consumer_deadlock_example = consumer_deadlock 1
