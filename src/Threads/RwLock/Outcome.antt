-- ===== src/Threads/RwLock/Outcome.antt =====
-- What the threads of thread/rw-lock/main.c come to, in every order of their steps.
use linux_programing_demo.Common.{
  if◌then◌else◌, ℕ, ◌+◌, ◌*◌, ◌^◌, ◌≤◌, ◌<◌, ◌≡◌, refl, ap, subst, ◌∙◌, ◌≢◌, ◌⊎◌, inl, inr, true,
  Option, none, some, arith,
}
use linux_programing_demo.Threads.Family.{update, total, total-update, total-const}
use linux_programing_demo.Threads.RwLock.{
  Pc, unborn, r_lock, r_unlock, r_test, r_done, w_head, w_load, w_store, w_unlock, w_exit, w_done,
  Main, creating, joining, printed, System, rdlock, wrlock, advance, routine, is_ended, master,
  Reach, begin, act, lead,
}
use linux_programing_demo.Threads.RwLock.Invariant.{
  reads, writes, rounds, InRange, is_born, is_writer, Stands, Inv, counter_sum,
}
use linux_programing_demo.Threads.RwLock.Reached.{Reach-Inv}

-- The steps of `main` and of the writers in a run.
abbrev by_writer : Pc → ℕ
by_writer p = if is_writer p then 1 else 0

pub other_steps : {max : ℕ} {s : System} → Reach max s → ℕ
other_steps begin = 0
other_steps (act {s = s} s' t r lt h) = by_writer (s.pc t) + other_steps r
other_steps (lead s' r h) = 1 + other_steps r

-- The steps that a writer has made, and `main`.
abbrev taken : ℕ → Pc → ℕ
taken max (w_head i) = 4 * i
taken max (w_load i) = 4 * i + 1
taken max (w_store i v) = 4 * i + 2
taken max (w_unlock i) = 4 * i + 3
taken max w_exit = 4 * max + 1
taken max w_done = 4 * max + 2
taken max _ = 0

abbrev led : Main → ℕ
led (creating k) = k
led (joining k) = 5 + k
led (printed v) = 10

taken-le : (max c : ℕ) (p : Pc) → InRange max c p → taken max p ≤ 4 * max + 2
taken-le max c (w_head i) h = omega (arith, h)
taken-le max c (w_load i) h = omega (arith, h)
taken-le max c (w_store i v) h = omega (arith, h.0)
taken-le max c (w_unlock i) h = omega (arith, h)
taken-le max c _ h = omega arith

taken_reader : (max : ℕ) (p : Pc) → is_writer p ≢ true → taken max p ≡ 0
taken_reader max unborn h = refl
taken_reader max r_lock h = refl
taken_reader max r_unlock h = refl
taken_reader max r_test h = refl
taken_reader max r_done h = refl
taken_reader max _ h = absurd (h refl)

led-le : (c : ℕ) (pc : ℕ → Pc) (m : Main) → Stands c pc m → led m ≤ 10
led-le c pc (creating k) st = omega (arith, st.0)
led-le c pc (joining k) st = omega (arith, st.0)
led-le c pc (printed v) st = omega arith

module _ (max : ℕ) (s s' : System) (inv : Inv max s) where
  moved :
      (t : ℕ) (p : Pc)
      → t < 4
      → total (taken max) 4 (update s.pc t p) + taken max (s.pc t)
        ≡ total (taken max) 4 s.pc + taken max p
  moved t p lt = total-update (taken max) 4 t s.pc p lt

  advance-taken :
      (t : ℕ) (p : Pc)
      → t < 4
      → s.pc t ≡ p
      → advance max t p s ≡ some s'
      → total (taken max) 4 s'.pc + led s'.main
        ≡ by_writer p + total (taken max) 4 s.pc + led s.main
  unfolding advance rdlock wrlock
  advance-taken t r_lock lt e h = ground (arith, moved t r_unlock lt)
  advance-taken t r_unlock lt e h = ground (arith, moved t r_test lt)
  advance-taken t r_test lt e h = ground (arith, moved t r_done lt, moved t r_lock lt)
  advance-taken t (w_head i) lt e h =
      ground (arith, inv.range t, moved t (w_load i) lt, moved t w_exit lt)
  advance-taken t (w_load i) lt e h = ground (arith, moved t (w_store i s.counter) lt)
  advance-taken t (w_store i v) lt e h = ground (arith, moved t (w_unlock i) lt)
  advance-taken t (w_unlock i) lt e h = ground (arith, moved t (w_head (i + 1)) lt)
  advance-taken t w_exit lt e h = ground (arith, moved t w_done lt)
  advance-taken t unborn lt e h = cc
  advance-taken t r_done lt e h = cc
  advance-taken t w_done lt e h = cc

  master-taken :
      (m : Main)
      → s.main ≡ m
      → master m s ≡ some s'
      → total (taken max) 4 s'.pc + led s'.main ≡ 1 + total (taken max) 4 s.pc + led s.main
  unfolding master routine
  master-taken (creating k) e h =
      let st : Stands s.counter s.pc (creating k) = rw e at inv.stands in
      ground (arith, st.0, st.2 k, moved k (routine k))
  master-taken (joining k) e h =
      let st : Stands s.counter s.pc (joining k) = rw e at inv.stands in ground (arith, st.0)
  master-taken (printed v) e h = cc

pub Reach-taken :
    (max : ℕ) {s : System}
    → 2 * max < 2 ^ 63
    → (r : Reach max s) → other_steps r ≡ total (taken max) 4 s.pc + led s.main
unfolding total other_steps
Reach-taken max fits begin = omega arith
Reach-taken max fits (act {s = s} s' t r lt h) = omega (
  arith,
  Reach-taken max fits r,
  advance-taken max s s' (Reach-Inv max fits r) t (s.pc t) lt refl h,
)
Reach-taken max fits (lead {s = s} s' r h) =
    omega
      (arith, Reach-taken max fits r, master-taken max s s' (Reach-Inv max fits r) s.main refl h)

module _ (max : ℕ) (s : System) (fits : 2 * max < 2 ^ 63) (r : Reach max s) where
  reader_counted : (t : ℕ) → t < 4 → s.pc t ≡ r_unlock → 1 ≤ s.readers
  reader_counted t lt e =
      let inv = Reach-Inv max fits r in
      ground (arith, inv.reading, total-update reads 4 t s.pc unborn lt)

  -- While 2 * max is below 2 ^ 63: no two writers are between their lock and unlock, no reader is there
  -- with a writer, the counter is the sum of the rounds the writers have stored, and a reader that has
  -- left its loop did so after the last of them.
  pub lock_respected :
      ((t u : ℕ) → writes (s.pc t) ≡ true → writes (s.pc u) ≡ true → t ≡ u)
      × ((t u : ℕ) → u < 4 → writes (s.pc t) ≡ true → s.pc u ≢ r_unlock)
      × (s.counter ≡ rounds max (s.pc 0) + rounds max (s.pc 2))
      × ((t : ℕ) → s.pc t ≡ r_done → s.counter ≡ 2 * max)
  lock_respected =
      let inv = Reach-Inv max fits r in
      (
        λ t u a b. ground (arith, inv.inside t, inv.inside u),
        λ t u lt a b. ground (arith, inv.inside t, inv.alone t, reader_counted u),
        counter_sum max s inv,
        λ t e. ground (arith, inv.range t),
      )

  -- Where no thread can move, each is ended or not yet created.
  thread_stuck :
      (t : ℕ) (p : Pc)
      → s.pc t ≡ p
      → s.writer ≡ none
      → s.readers ≡ 0
      → advance max t p s ≡ none
      → (is_born p ≡ true)
      → is_ended p ≡ true
  unfolding advance rdlock wrlock
  thread_stuck t r_lock e w z h b = ground arith
  thread_stuck t (w_head i) e w z h b = ground arith
  thread_stuck t _ e w z h b = ground arith

  holder_moves : (t : ℕ) (p : Pc) → (writes p ≡ true) ⊎ (p ≡ r_unlock) → advance max t p s ≢ none
  unfolding advance
  holder_moves t r_unlock w h = cc
  holder_moves t (w_load i) w h = cc
  holder_moves t (w_store i v) w h = cc
  holder_moves t (w_unlock i) w h = cc
  holder_moves t _ w h = ground arith

  master_stuck :
      (m : Main)
      → ((t : ℕ) → t < 4 → is_born (s.pc t) ≡ true → is_ended (s.pc t) ≡ true)
      → Stands s.counter s.pc m
      → master m s ≡ none
      → (v : ℕ) × (m ≡ printed v)
  unfolding master
  master_stuck (creating k) all st h = absurd (ground arith)
  master_stuck (joining k) all st h = absurd (ground (arith, all k, st.1 k))
  master_stuck (printed v) all st h = (v, refl)

  reader_free :
      ((t : ℕ) → t < 4 → advance max t (s.pc t) s ≡ none)
      → (t : ℕ) → t < 4
      → (p : Pc) → s.pc t ≡ p
      → reads p ≡ 0
  reader_free stuck t lt r_unlock e =
      absurd
        (holder_moves t r_unlock (inr refl) (subst (λ q. advance max t q s ≡ none) e (stuck t lt)))
  reader_free stuck t lt _ e = refl

  lock_free :
      ((t : ℕ) → t < 4 → advance max t (s.pc t) s ≡ none)
      → (o : Option ℕ) → s.writer ≡ o
      → (s.writer ≡ none) × (s.readers ≡ 0)
  lock_free stuck none e = (
    e,
    omega (
      arith,
      (Reach-Inv max fits r).reading,
      total-const reads 4 0 s.pc (λ t lt. reader_free stuck t lt (s.pc t) refl),
    ),
  )
  lock_free stuck (some u) e =
      let inv = Reach-Inv max fits r in
      let c : writes (s.pc u) ≡ true = inv.owned u e in
      let lt : u < 4 = ground (arith, inv.beyond u) in
      absurd (holder_moves u (s.pc u) (inl c) (stuck u lt))

  last_count : (v : ℕ) → Stands s.counter s.pc (printed v) → v ≡ 2 * max
  last_count v st =
      let inv = Reach-Inv max fits r in
      let first : s.pc 0 ≡ w_done = ground (arith, st.0 0, inv.role 0) in
      let second : s.pc 2 ≡ w_done = ground (arith, st.0 2, inv.role 2) in
      let sum : s.counter ≡ 2 * max = ground (arith, counter_sum max s inv) in omega (arith, st.1)

  -- While 2 * max is below 2 ^ 63: in a state where neither `main` nor a thread can move, all four
  -- threads have ended and `main` has printed 2 * max. There is no deadlock.
  pub rw_lock_complete :
      ((t : ℕ) → t < 4 → advance max t (s.pc t) s ≡ none)
      → master s.main s ≡ none
      → (s.main ≡ printed (2 * max)) × ((t : ℕ) → t < 4 → is_ended (s.pc t) ≡ true)
  rw_lock_complete stuck main_stuck =
      let inv = Reach-Inv max fits r in
      let (w, z) = lock_free stuck s.writer refl in
      let all : (t : ℕ) → t < 4 → is_born (s.pc t) ≡ true → is_ended (s.pc t) ≡ true =
        λ t lt b. thread_stuck t (s.pc t) refl w z (stuck t lt) b in
      let (v, e) = master_stuck s.main all inv.stands main_stuck in
      let st : Stands s.counter s.pc (printed v) = rw e at inv.stands in
      (e ∙ ap printed (last_count v st), st.0)

  -- While 2 * max is below 2 ^ 63, every run has at most 8 * max + 14 steps that are not a reader's: only
  -- the readers' rounds have no bound.
  pub other_steps_bounded : other_steps r ≤ 8 * max + 14
  unfolding total
  other_steps_bounded =
      let inv = Reach-Inv max fits r in
      omega (
        arith,
        Reach-taken max fits r,
        led-le s.counter s.pc s.main inv.stands,
        taken-le max s.counter (s.pc 0) (inv.range 0),
        taken-le max s.counter (s.pc 2) (inv.range 2),
        taken_reader max (s.pc 1) (λ e. ground (arith, inv.role 1)),
        taken_reader max (s.pc 3) (λ e. ground (arith, inv.role 3)),
      )
