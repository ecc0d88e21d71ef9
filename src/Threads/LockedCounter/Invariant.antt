-- ===== src/Threads/LockedCounter/Invariant.antt =====
-- Who is inside the lock, what the counter is, and that every step keeps it so.
use linux_programing_demo.Common.{
  ltb, Bool-cases, ℕ, suc, ◌+◌, ◌*◌, ◌%◌, ◌≤◌, ◌<◌, ◌≡◌, refl, ap, ◌∙◌, inl, inr, Bool, true, false,
  Option, none, some, arith,
}
use native.Mathlib.Nat.{mod-eq_of_lt}
use linux_programing_demo.Threads.Family.{update, total, total-update, total-le, total-const}
use linux_programing_demo.Threads.LockedCounter.{
  Lock, Pc, head, locked, loaded, stored, failed, System, init, advance, step, Reach, start, next,
}

-- Between the return of the acquiring call and that of the releasing one.
abbrev pub critical : Pc → Bool
critical (head i) = false
critical failed = false
critical _ = true

-- The rounds whose increment has been stored.
abbrev pub done : Pc → ℕ
done (head i) = i
done (locked i) = i
done (loaded i v) = i
done (stored i) = i + 1
done failed = 0

-- The steps that a thread has made.
abbrev pub taken : Pc → ℕ
taken (head i) = 4 * i
taken (locked i) = 4 * i + 1
taken (loaded i v) = 4 * i + 2
taken (stored i) = 4 * i + 3
taken failed = 0

abbrev pub IsFresh : ℕ → Pc → Type 0
IsFresh c (loaded i v) = v ≡ c
IsFresh c _ = Unit

abbrev pub InRange : ℕ → Pc → Type 0
InRange max (head i) = i ≤ max
InRange max (locked i) = i < max
InRange max (loaded i v) = i < max
InRange max (stored i) = i < max
InRange max failed = ⊥

done-le : (max : ℕ) (p : Pc) → InRange max p → done p ≤ max
done-le max (head i) h = h
done-le max (locked i) h = omega arith
done-le max (loaded i v) h = omega arith
done-le max (stored i) h = omega arith
done-le max failed h = absurd h

module _ (L : Lock) (max modulus : ℕ) where
  abbrev pub lock_of : Option ℕ → L.State
  lock_of none = L.free
  lock_of (some t) = L.held t

  -- `o` is the thread that owns the lock.
  pub record Inv (n k : ℕ) (o : Option ℕ) (s : System L max modulus) : Type 0 where
    pub lock_is : s.lock ≡ lock_of o
    pub inside : (t : ℕ) → critical (s.pc t) ≡ true → o ≡ some t
    pub owned : (t : ℕ) → o ≡ some t → critical (s.pc t) ≡ true
    pub owner_lt : (t : ℕ) → o ≡ some t → t < n
    pub fresh : (t : ℕ) → IsFresh s.counter (s.pc t)
    pub range : (t : ℕ) → InRange max (s.pc t)
    pub count : s.counter ≡ total done n s.pc
    pub steps : total taken n s.pc ≡ k

  abbrev pub Ensures : ℕ → ℕ → Option (System L max modulus) → Type 0
  Ensures n k none = Unit
  Ensures n k (some s) = (o : Option ℕ) × Inv n k o s

  init-Inv : (n : ℕ) → Inv n 0 none (init L max modulus)
  unfolding init
  init-Inv n = record {
    lock_is = refl;
    inside = λ t e. cc;
    owned = λ t e. cc;
    owner_lt = λ t e. cc;
    fresh = λ t. tt;
    range = λ t. omega arith;
    count = omega (arith, total-const done n 0 (λ _. head 0) (λ _ _. refl));
    steps = omega (arith, total-const taken n 0 (λ _. head 0) (λ _ _. refl));
  }

  module _ (n k : ℕ) (fits : n * max < modulus) (s : System L max modulus) (t : ℕ)
      (lt : t < n) where
    counts : (p : Pc) → total done n (update s.pc t p) + done (s.pc t) ≡ total done n s.pc + done p
    counts p = total-update done n t s.pc p lt

    moves :
        (p : Pc) → total taken n (update s.pc t p) + taken (s.pc t) ≡ total taken n s.pc + taken p
    moves p = total-update taken n t s.pc p lt

    advance-head :
        (o : Option ℕ) (i : ℕ)
        → Inv n k o s
        → s.pc t ≡ head i
        → Ensures n (suc k) (advance L max modulus t (head i) s)
    unfolding advance
    advance-head none i inv at_head = elim (Bool-cases (ltb i max)) [
      | inl more ↦
          rw (more, inv.lock_is, L.acquire-free t)
            (
              some t,
              record {
                lock_is = refl;
                inside = λ u c. ground (arith, inv.inside u);
                owned = λ u c. ground (arith, inv.owned u);
                owner_lt = λ u c. ground arith;
                fresh = λ u. ground (arith, inv.fresh u);
                range = λ u. ground (arith, inv.range u);
                count = ground (arith, inv.count, counts (locked i));
                steps = ground (arith, inv.steps, moves (locked i));
              },
            )
      | inr last ↦ rw last tt
    ]
    advance-head (some u) i inv at_head = elim (Bool-cases (ltb i max)) [
      | inl more ↦ rw (more, inv.lock_is, L.acquire-held t u (λ e. ground (arith, inv.owned u))) tt
      | inr last ↦ rw last tt
    ]

    advance-locked :
        (o : Option ℕ) (i : ℕ)
        → Inv n k o s
        → s.pc t ≡ locked i
        → Ensures n (suc k) (advance L max modulus t (locked i) s)
    unfolding advance
    advance-locked o i inv e = (
      o,
      record {
        lock_is = inv.lock_is;
        inside = λ u c. ground (arith, inv.inside u, inv.inside t);
        owned = λ u c. ground (arith, inv.owned u);
        owner_lt = inv.owner_lt;
        fresh = λ u. ground (arith, inv.fresh u);
        range = λ u. ground (arith, inv.range u, inv.range t);
        count = ground (arith, inv.count, counts (loaded i s.counter));
        steps = ground (arith, inv.steps, moves (loaded i s.counter));
      },
    )

    advance-loaded :
        (o : Option ℕ) (i v : ℕ)
        → Inv n k o s
        → s.pc t ≡ loaded i v
        → Ensures n (suc k) (advance L max modulus t (loaded i v) s)
    unfolding advance
    advance-loaded o i v inv e =
        let small : total done n (update s.pc t (stored i)) ≤ n * max =
          total-le done n max (update s.pc t (stored i))
            (λ u _. ground (arith, inv.range t, done-le max (s.pc u) (inv.range u))) in
        let adds : (v + 1) % modulus ≡ total done n (update s.pc t (stored i)) =
          mod-eq_of_lt (ground (arith, inv.count, inv.fresh t, counts (stored i)))
          ∙ ground (arith, inv.count, inv.fresh t, counts (stored i)) in
        (
          o,
          record {
            lock_is = inv.lock_is;
            inside = λ u c. ground (arith, inv.inside u, inv.inside t);
            owned = λ u c. ground (arith, inv.owned u);
            owner_lt = inv.owner_lt;
            fresh = λ u. ground (arith, inv.fresh u, inv.inside u, inv.inside t);
            range = λ u. ground (arith, inv.range u, inv.range t);
            count = adds;
            steps = ground (arith, inv.steps, moves (stored i));
          },
        )

    advance-stored :
        (o : Option ℕ) (i : ℕ)
        → Inv n k o s
        → s.pc t ≡ stored i
        → Ensures n (suc k) (advance L max modulus t (stored i) s)
    unfolding advance
    advance-stored o i inv e =
        let gives : L.release t s.lock ≡ some L.free =
          ap (L.release t) (inv.lock_is ∙ ap lock_of (inv.inside t (rw e refl)))
          ∙ L.release-held t in
        rw (gives, Ensures)
          (
            none,
            record {
              lock_is = refl;
              inside = λ u c. ground (arith, inv.inside u, inv.inside t);
              owned = λ u c. cc;
              owner_lt = λ u c. cc;
              fresh = λ u. ground (arith, inv.fresh u);
              range = λ u. ground (arith, inv.range u, inv.range t);
              count = ground (arith, inv.count, counts (head (i + 1)));
              steps = ground (arith, inv.steps, moves (head (i + 1)));
            },
          )

    advance-Inv :
        (o : Option ℕ) (p : Pc)
        → Inv n k o s
        → s.pc t ≡ p
        → Ensures n (suc k) (advance L max modulus t p s)
    advance-Inv o (head i) inv e = advance-head o i inv e
    advance-Inv o (locked i) inv e = advance-locked o i inv e
    advance-Inv o (loaded i v) inv e = advance-loaded o i v inv e
    advance-Inv o (stored i) inv e = advance-stored o i inv e
    advance-Inv o failed inv e = absurd (rw e at (inv.range t))

    pub step-Inv : (o : Option ℕ) → Inv n k o s → Ensures n (suc k) (step L max modulus t s)
    unfolding step
    step-Inv o inv = advance-Inv o (s.pc t) inv refl

  pub Reach-Inv :
      (n k : ℕ) {s : System L max modulus}
      → n * max < modulus
      → Reach L max modulus n k s
      → (o : Option ℕ) × Inv n k o s
  Reach-Inv n k fits start = (none, init-Inv n)
  Reach-Inv n k fits (next {k = j} {s = s} s' t r lt e) =
      let (o, inv) = Reach-Inv n j fits r in rw e at (step-Inv n j fits s t lt o inv)
