-- ===== src/Threads/Cond/Deadlock.antt =====
-- The consumer can wait for ever: the producer sets `producerExit` outside of the mutex and signals
-- nobody after it.
use linux_programing_demo.Common.{
  ℕ, zero, suc, ◌+◌, ◌≤◌, ◌≡◌, refl, subst, true, false, Option, none, some, arith, add-zero,
}
use linux_programing_demo.Threads.Cond.{
  Who, producer, consumer, Producer, p_head, p_inc, p_exit, p_done, Consumer, c_lock, c_wait,
  c_drain, System, produce, consume, step, Reach, start, next,
}

abbrev idle_at : ℕ → ℕ → Producer → Consumer → Option Who → System
idle_at c e p q m = record {
  mutex = m;
  counter = c;
  producer_exit = false;
  prod = p;
  cons = q;
  exhausted = e;
}

module _ (max : ℕ) where
  moves : {s s' : System} → Reach max s → (w : Who) → step max w s ≡ some s' → Reach max s'
  moves {s' = s'} r w h = next s' w r h

  -- The producer makes its first `i` items while the consumer is delayed.
  produces : (i : ℕ) → i ≤ max → Reach max (idle_at i 0 (p_head i) c_lock none)
  unfolding step produce
  produces zero h = start
  produces (suc i) h =
      let r0 = produces i (omega arith) in
      let r1 : Reach max (idle_at i 0 (p_inc i) c_lock (some producer)) =
        moves r0 producer (ground arith) in
      let r2 = moves r1 producer refl in
      let r3 = moves r2 producer refl in
      let r4 = moves r3 producer refl in
      subst (λ k. Reach max (idle_at k 0 (p_head k) c_lock none)) (omega arith) r4

  -- The consumer takes all of `c` items.
  drains :
      (c e : ℕ) (p : Producer)
      → Reach max (idle_at c e p c_drain (some consumer))
      → Reach max (idle_at 0 (e + c) p c_drain (some consumer))
  unfolding step consume
  drains zero e p r = rw (add-zero e) r
  drains (suc c) e p r =
      let r1 : Reach max (idle_at c (e + 1) p c_drain (some consumer)) =
        moves r consumer (ground arith) in
      subst (λ k. Reach max (idle_at 0 k p c_drain (some consumer))) (omega arith)
        (drains c (e + 1) p r1)

  -- A consumer that has taken all, before the producer sets its flag.
  takes_all :
      (m : ℕ)
      → Reach max (idle_at m 0 (p_head max) c_lock none)
      → Reach max (idle_at 0 m (p_head max) c_lock none)
  unfolding step consume
  takes_all zero r = r
  takes_all (suc m) r0 =
      let r1 = moves r0 consumer refl in
      let r2 : Reach max (idle_at (suc m) 0 (p_head max) c_drain (some consumer)) =
        moves r1 consumer (ground arith) in
      let r3 = moves (drains (suc m) 0 (p_head max) r2) consumer refl in
      let r4 = moves r3 consumer refl in
      let r5 = moves r4 consumer refl in
      subst (λ k. Reach max (idle_at 0 k (p_head max) c_lock none)) (omega arith) r5

  consumes : Reach max (idle_at 0 max (p_head max) c_lock none)
  consumes = takes_all max (produces max (omega arith))

  waits :
      Reach max (idle_at 0 max (p_head max) c_lock none)
      → Reach max (record (idle_at 0 max p_done c_wait none) { producer_exit = true })
  unfolding step produce consume
  waits r0 =
      let r1 = moves r0 consumer refl in
      let r2 = moves r1 consumer refl in
      let r3 = moves r2 consumer refl in
      let r4 : Reach max (idle_at 0 max p_exit c_wait none) = moves r3 producer (ground arith) in
      moves r4 producer refl

-- Whatever `maxTestNumber` is, the program can come to a state where the producer has finished, the
-- consumer waits on the condition variable, and neither can move: `main` then joins for ever.
pub consumer_deadlock :
    (max : ℕ)
    → (s : System) × Reach max s
      × (s.prod ≡ p_done)
      × (s.cons ≡ c_wait)
      × ((w : Who) → step max w s ≡ none)
unfolding step produce consume
consumer_deadlock max = (_, waits max (consumes max), refl, refl, dead)
  where
    dead :
        (w : Who)
        → step max w (record (idle_at 0 max p_done c_wait none) { producer_exit = true }) ≡ none
    dead producer = refl
    dead consumer = refl
