-- ===== src/Threads/LockedCounter/Outcome.antt =====
-- What the threads of a locked counter come to, in every order of their steps.
use linux_programing_demo.Common.{
  ltb, Bool-cases, ℕ, ◌*◌, ◌≤◌, ◌<◌, ◌≡◌, refl, ap, ◌∙◌, ◌≢◌, inl, inr, Bool, true, false, Option,
  none, some, arith,
}
use linux_programing_demo.Threads.Family.{total-le, total-const}
use linux_programing_demo.Threads.LockedCounter.{
  Lock, granted, Pc, head, locked, loaded, stored, failed, IsDone, System, advance, step, Reach,
}
use linux_programing_demo.Threads.LockedCounter.Invariant.{
  critical, done, taken, InRange, Inv, Reach-Inv,
}

taken-le : (max : ℕ) (p : Pc) → InRange max p → taken p ≤ 4 * max
taken-le max (head i) h = omega arith
taken-le max (locked i) h = omega arith
taken-le max (loaded i v) h = omega arith
taken-le max (stored i) h = omega arith
taken-le max failed h = absurd h

done_max : {max : ℕ} (p : Pc) → IsDone max p → done p ≡ max
done_max (head i) h = h
done_max (locked i) h = absurd h
done_max (loaded i v) h = absurd h
done_max (stored i) h = absurd h
done_max failed h = absurd h

outside : (b : Bool) (t : ℕ) → (b ≡ true → ◌≡◌ {A = Option ℕ} none (some t)) → b ≡ false
outside true t h = cc (h refl)
outside false t h = refl

module _ (L : Lock) (max modulus n k : ℕ) (s : System L max modulus) where
  -- While n * max stays below the modulus of the counter, two threads are never between acquiring
  -- and releasing together.
  pub mutual_exclusion :
      n * max < modulus
      → Reach L max modulus n k s
      → (t u : ℕ) → critical (s.pc t) ≡ true
      → critical (s.pc u) ≡ true
      → t ≡ u
  mutual_exclusion fits r t u in_t in_u =
      let (o, inv) = Reach-Inv L max modulus n k fits r in
      ground (arith, inv.inside t in_t, inv.inside u in_u)

  -- While n * max stays below the modulus, no run is longer than 4 * max steps for each thread.
  pub steps_bounded : n * max < modulus → Reach L max modulus n k s → k ≤ n * (4 * max)
  steps_bounded fits r =
      let (o, inv) = Reach-Inv L max modulus n k fits r in
      omega (
        arith,
        inv.steps,
        total-le taken n (4 * max) s.pc (λ t _. taken-le max (s.pc t) (inv.range t)),
      )

  owner_moves :
      (t : ℕ) (p : Pc)
      → s.pc t ≡ p
      → critical p ≡ true
      → s.lock ≡ L.held t
      → advance L max modulus t p s ≢ none
  unfolding advance
  owner_moves t (head i) e c h = cc
  owner_moves t (locked i) e c h = λ q. cc
  owner_moves t (loaded i v) e c h = λ q. cc
  owner_moves t (stored i) e c h =
      let gives : L.release t s.lock ≡ some L.free = ap (L.release t) h ∙ L.release-held t in
      rw (gives, advance) (λ q. cc)
  owner_moves t failed e c h = cc

  free-IsDone :
      (t : ℕ) (p : Pc)
      → InRange max p
      → critical p ≡ false
      → s.lock ≡ L.free
      → advance L max modulus t p s ≡ none
      → IsDone max p
  unfolding advance
  free-IsDone t (head i) h c f stuck = elim (Bool-cases (ltb i max)) [
    | inl more ↦
        let gives : L.acquire t s.lock ≡ granted (L.held t) =
          ap (L.acquire t) f ∙ L.acquire-free t in
        absurd (cc (rw (more, gives) at stuck))
    | inr last ↦ ground arith
  ]
  free-IsDone t (locked i) h c f stuck = cc
  free-IsDone t (loaded i v) h c f stuck = cc
  free-IsDone t (stored i) h c f stuck = cc
  free-IsDone t failed h c f stuck = absurd h

  -- While n * max stays below the modulus: when no thread can move any more, every thread has left its loop at the end, and the counter
  -- holds one increment for each of their rounds: no deadlock, no early return, no lost update.
  pub stuck_complete :
      n * max < modulus
      → Reach L max modulus n k s
      → ((t : ℕ) → t < n → step L max modulus t s ≡ none)
      → ((t : ℕ) → t < n → IsDone max (s.pc t)) × (s.counter ≡ n * max)
  unfolding step
  stuck_complete fits r stuck =
      finish (Reach-Inv L max modulus n k fits r).0 (Reach-Inv L max modulus n k fits r).1
    where
      count_all :
          (o : Option ℕ)
          → Inv L max modulus n k o s
          → ((t : ℕ) → t < n → IsDone max (s.pc t))
          → s.counter ≡ n * max
      count_all o inv all_done =
          inv.count ∙ total-const done n max s.pc (λ t lt. done_max (s.pc t) (all_done t lt))

      finish :
          (o : Option ℕ)
          → Inv L max modulus n k o s
          → ((t : ℕ) → t < n → IsDone max (s.pc t)) × (s.counter ≡ n * max)
      finish (some u) inv = absurd (
          owner_moves u (s.pc u) refl (inv.owned u refl) inv.lock_is
            (stuck u (inv.owner_lt u refl)))
      finish none inv =
          let all_done : (t : ℕ) → t < n → IsDone max (s.pc t) = λ t lt.
            free-IsDone t (s.pc t) (inv.range t) (outside (critical (s.pc t)) t (inv.inside t))
              inv.lock_is (stuck t lt) in
          (all_done, count_all none inv all_done)
