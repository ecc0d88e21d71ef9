-- ===== src/Threads/Semaphore/Binary/Outcome.antt =====
-- What the binary semaphore guarantees in every order of steps.
use linux_programing_demo.Common.{
  Option-cases, ℕ, zero, suc, ◌+◌, ◌≤◌, ◌<◌, ◌≡◌, refl, subst, ◌≢◌, ◌⊎◌, inl, inr, Bool, true,
  false, Option, none, some, List, [], ◌∷◌, arith, ℕ_discrete,
}
use linux_programing_demo.Threads.Family.{update, total, total-update, total-const}
use linux_programing_demo.Threads.Semaphore.{
  Op, wait, post, Pc, idle, wait_test, wait_sleep, wait_woken, post_test, post_signal, System,
  create, lock_then, advance, Sleeps, Step, act, signal, signal_nobody, Event, step, spurious,
  Reach, start, next,
}
use linux_programing_demo.Threads.Semaphore.Binary.{
  Rounds, inside, tokens, owns_mutex, Follows, alert, Inv,
}
use linux_programing_demo.Threads.Semaphore.Binary.Advance.{advance-Inv}
use linux_programing_demo.Threads.Semaphore.Binary.Signals.{
  signal-Inv, signal_nobody-Inv, spurious-Inv,
}

Rounds-outside : (ops : List Op) → Rounds ops → tokens (idle ops) ≡ 0
Rounds-outside [] h = refl
Rounds-outside (wait ∷ ops) h = refl
Rounds-outside (post ∷ ops) h = absurd h

Rounds-Follows : (ops : List Op) → Rounds ops → Follows (idle ops)
Rounds-Follows [] h = tt
Rounds-Follows (wait ∷ ops) h = h
Rounds-Follows (post ∷ ops) h = absurd h

create-Inv :
    (n : ℕ) (program : ℕ → List Op) → ((t : ℕ) → Rounds (program t)) → Inv n (create program)
create-Inv n program rounds = record {
  owner = λ t c. cc;
  owned = λ t c. cc;
  token = omega (
    arith,
    total-const tokens n 0 (λ t. idle (program t)) (λ t _. Rounds-outside (program t) (rounds t)),
  );
  follows = λ t. Rounds-Follows (program t) (rounds t);
  fits = λ t. tt;
  watched = λ u lt z nz. absurd z;
  promised = λ t u lt i z. absurd i;
}

Step-Inv : (n : ℕ) (s s' : System) → Inv n s → Step n s s' → Inv n s'
Step-Inv n s s' inv (act t lt h) = advance-Inv n s s' inv t lt h
Step-Inv n s s' inv (signal t u ops ops' lt ltu e e' q) =
    rw q (signal-Inv n s inv t u ops ops' lt ltu e e')
Step-Inv n s s' inv (signal_nobody t ops lt e nobody q) =
    rw q (signal_nobody-Inv n s inv t ops lt e nobody)

Event-Inv : (n : ℕ) (s s' : System) → Inv n s → Event n s s' → Inv n s'
Event-Inv n s s' inv (step st) = Step-Inv n s s' inv st
Event-Inv n s s' inv (spurious u ops lt e q) = rw q (spurious-Inv n s inv u ops lt e)

pub Reach-Inv :
    (n : ℕ) (program : ℕ → List Op) {s : System}
    → ((t : ℕ) → Rounds (program t))
    → Reach n program s
    → Inv n s
Reach-Inv n program rounds start = create-Inv n program rounds
Reach-Inv n program rounds (next {s = s} s' r e) = Event-Inv n s s' (Reach-Inv n program rounds r) e

two_tokens :
    (n t u : ℕ) (f : ℕ → Pc)
    → t < n
    → u < n
    → t ≢ u
    → tokens (f t) + tokens (f u) ≤ total tokens n f
two_tokens n t u f lt ltu ne = ground (
  arith,
  total-update tokens n t f (idle []) lt,
  total-update tokens n u (update f t (idle [])) (idle []) ltu,
)

one_token : (n t : ℕ) (f : ℕ → Pc) → t < n → tokens (f t) ≤ total tokens n f
one_token n t f lt = ground (arith, total-update tokens n t f (idle []) lt)

-- Threads that call `semaphore_wait` and `semaphore_post` in turn: the count is never above 1, at
-- most one thread is between its decrement and its increment of it, and meanwhile it is 0.
pub binary_exclusion :
    (n : ℕ) (program : ℕ → List Op) (s : System)
    → ((t : ℕ) → Rounds (program t))
    → Reach n program s
    → (s.count ≤ 1)
      × ((t u : ℕ)
          → t < n
          → u < n
          → inside (s.pc t) ≡ true
          → inside (s.pc u) ≡ true
          → (t ≡ u) × (s.count ≡ 0))
binary_exclusion n program s rounds r =
    let token = (Reach-Inv n program rounds r).token in
    (
      omega (arith, token),
      λ t u lt ltu i j. elim (ℕ_discrete t u) [
        | yes same ↦ (same, ground (arith, token, one_token n t s.pc lt))
        | no other ↦ absurd (ground (arith, token, two_tokens n t u s.pc lt ltu other))
      ],
    )

sleeps? : (p : Pc) → ((ops : List Op) × (p ≡ wait_sleep ops)) ⊎ (¬ (Sleeps p))
sleeps? (wait_sleep ops) = inl (ops, refl)
sleeps? (idle ops) = inr (λ z. z)
sleeps? _ = inr (λ z. z)

find_sleeper :
    (n : ℕ) (f : ℕ → Pc)
    → ((u : ℕ) × (ops : List Op) × (u < n) × (f u ≡ wait_sleep ops))
      ⊎ ((u : ℕ) → u < n → ¬ (Sleeps (f u)))
find_sleeper zero f = inr (λ u lt. absurd (omega arith))
find_sleeper (suc n) f = elim (sleeps? (f n)) [
  | inl (ops, e) ↦ inl (n, ops, omega arith, e)
  | inr awake ↦ elim (find_sleeper n f) [
    | inl (u, ops, lt, e) ↦ inl (u, ops, omega arith, e)
    | inr all_awake ↦ inr (λ u lt z. elim (ℕ_discrete u n) [
      | yes last ↦ awake (subst (λ w. Sleeps (f w)) last z)
      | no before ↦ all_awake u (omega arith) z
    ])
  ]
]

-- The places where a thread waits for another, or has nothing more to do.
abbrev Quiet : Pc → Type 0
Quiet (idle []) = Unit
Quiet (wait_sleep ops) = Unit
Quiet _ = ⊥

module _ (n : ℕ) (s : System) (stuck : (s' : System) → ¬ (Step n s s')) where
  no_advance : (t : ℕ) → t < n → advance t (s.pc t) s ≡ none
  no_advance t lt = elim (Option-cases (advance t (s.pc t) s)) [
    | inl nothing ↦ nothing
    | inr (s', e) ↦ absurd (stuck s' (act t lt e))
  ]

  no_signal : (t : ℕ) (ops : List Op) → t < n → s.pc t ≡ post_signal ops → ⊥
  no_signal t ops lt e = elim (find_sleeper n s.pc) [
    | inl (u, ops', ltu, e') ↦ stuck _ (signal t u ops ops' lt ltu e e' refl)
    | inr nobody ↦ stuck _ (signal_nobody t ops lt e nobody refl)
  ]

  owner_moves :
      (t : ℕ) (p : Pc) → t < n → s.pc t ≡ p → owns_mutex p ≡ true → advance t p s ≡ none → ⊥
  unfolding advance
  owner_moves t (post_signal ops) lt e c h = no_signal t ops lt e
  owner_moves t (wait_test ops) lt e c h = ground arith
  owner_moves t (post_test ops) lt e c h = ground arith
  owner_moves t _ lt e c h = cc

  free-Quiet :
      (t : ℕ) (p : Pc)
      → s.mutex ≡ none
      → owns_mutex p ≡ false
      → advance t p s ≡ none
      → Quiet p × (alert p ≡ false)
  unfolding advance lock_then
  free-Quiet t (idle []) m c h = (tt, refl)
  free-Quiet t (idle (wait ∷ ops)) m c h = absurd (ground arith)
  free-Quiet t (idle (post ∷ ops)) m c h = absurd (ground arith)
  free-Quiet t (wait_sleep ops) m c h = (tt, refl)
  free-Quiet t (wait_woken ops) m c h = absurd (ground arith)
  free-Quiet t _ m c h = absurd (cc)

Quiet-tokens : (p : Pc) → Quiet p → tokens p ≡ 0
Quiet-tokens (idle []) q = refl
Quiet-tokens (wait_sleep ops) q = refl
Quiet-tokens (idle (o ∷ ops)) q = absurd q
Quiet-tokens _ q = absurd q

Quiet-awake : (p : Pc) → Quiet p → ¬ (Sleeps p) → p ≡ idle []
Quiet-awake (idle []) q a = refl
Quiet-awake (wait_sleep ops) q a = absurd (a tt)
Quiet-awake (idle (o ∷ ops)) q a = absurd q
Quiet-awake _ q a = absurd q

no_owner : (b : Bool) (t : ℕ) {m : Option ℕ} → m ≡ none → (b ≡ true → m ≡ some t) → b ≡ false
no_owner true t e h = cc (h refl)
no_owner false t e h = refl

-- No wake-up is lost: when no thread can move but by a spurious wake-up, every thread has made all
-- of its calls, none sleeps, the mutex is free and the count is 1 again.
pub binary_complete :
    (n : ℕ) (program : ℕ → List Op) (s : System)
    → ((t : ℕ) → Rounds (program t))
    → Reach n program s
    → ((s' : System) → ¬ (Step n s s'))
    → ((t : ℕ) → t < n → s.pc t ≡ idle []) × (s.mutex ≡ none) × (s.count ≡ 1)
binary_complete n program s rounds r stuck = finish s.mutex refl
  where
    inv : Inv n s
    inv = Reach-Inv n program rounds r

    finish :
        (m : Option ℕ)
        → s.mutex ≡ m
        → ((t : ℕ) → t < n → s.pc t ≡ idle []) × (s.mutex ≡ none) × (s.count ≡ 1)
    finish (some u) e =
        let (c, lt) = inv.owned u e in
        absurd (owner_moves n s stuck u (s.pc u) lt refl c (no_advance n s stuck u lt))
    finish none e =
        let quiet : (t : ℕ) → t < n → Quiet (s.pc t) × (alert (s.pc t) ≡ false) = λ t lt.
          free-Quiet n s stuck t (s.pc t) e (no_owner (owns_mutex (s.pc t)) t e (inv.owner t))
            (no_advance n s stuck t lt) in
        let one : s.count ≡ 1 = omega (
          arith,
          inv.token,
          total-const tokens n 0 s.pc (λ t lt. Quiet-tokens (s.pc t) (quiet t lt).0),
        ) in
        (
          λ t lt. Quiet-awake (s.pc t) (quiet t lt).0 (λ z.
              let (v, ltv, a) = inv.watched t lt z (omega (arith, one)) in cc (a, (quiet v ltv).1)),
          e,
          one,
        )
