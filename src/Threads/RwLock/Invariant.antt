-- ===== src/Threads/RwLock/Invariant.antt =====
-- Who holds the read-write lock, and what the counter is.
use linux_programing_demo.Common.{
  ◌==◌, ℕ, ◌+◌, ◌*◌, ◌%◌, ◌≤◌, ◌<◌, ◌≡◌, refl, ◌≢◌, ◌⊎◌, inl, inr, Bool, true, false, some, arith,
}
use linux_programing_demo.Threads.Family.{total}
use linux_programing_demo.Threads.RwLock.{
  Pc, unborn, r_lock, r_unlock, r_test, r_done, w_head, w_load, w_store, w_unlock, w_exit, w_done,
  Main, creating, joining, printed, System, is_ended,
}

abbrev pub reads : Pc → ℕ
reads r_unlock = 1
reads _ = 0

abbrev pub writes : Pc → Bool
writes (w_load i) = true
writes (w_store i v) = true
writes (w_unlock i) = true
writes _ = false

-- The increments that a writer has stored.
abbrev pub rounds : ℕ → Pc → ℕ
rounds max (w_head i) = i
rounds max (w_load i) = i
rounds max (w_store i v) = i
rounds max (w_unlock i) = i + 1
rounds max w_exit = max
rounds max w_done = max
rounds max _ = 0

abbrev pub InRange : ℕ → ℕ → Pc → Type 0
InRange max c (w_head i) = i ≤ max
InRange max c (w_load i) = i < max
InRange max c (w_store i v) = (i < max) × (v ≡ c)
InRange max c (w_unlock i) = i < max
InRange max c r_done = c ≡ max * 2
InRange max c _ = Unit

-- Which threads are there.
abbrev pub is_born : Pc → Bool
is_born unborn = false
is_born _ = true

abbrev pub is_writer : Pc → Bool
is_writer unborn = false
is_writer r_lock = false
is_writer r_unlock = false
is_writer r_test = false
is_writer r_done = false
is_writer _ = true

abbrev pub Stands : ℕ → (ℕ → Pc) → Main → Type 0
Stands c pc (creating k) =
    (k ≤ 4) × ((t : ℕ) → t < k → is_born (pc t) ≡ true) × ((t : ℕ) → k ≤ t → pc t ≡ unborn)
Stands c pc (joining k) =
    (k ≤ 4) × ((t : ℕ) → t < 4 → is_born (pc t) ≡ true) × ((t : ℕ) → t < k → is_ended (pc t) ≡ true)
Stands c pc (printed v) = ((t : ℕ) → t < 4 → is_ended (pc t) ≡ true) × (v ≡ c)

pub record Inv (max : ℕ) (s : System) : Type 0 where
  pub inside : (t : ℕ) → writes (s.pc t) ≡ true → s.writer ≡ some t
  pub owned : (t : ℕ) → s.writer ≡ some t → writes (s.pc t) ≡ true
  pub alone : (t : ℕ) → s.writer ≡ some t → s.readers ≡ 0
  pub reading : s.readers ≡ total reads 4 s.pc
  pub account : s.counter ≡ total (rounds max) 4 s.pc
  pub range : (t : ℕ) → InRange max s.counter (s.pc t)
  pub role : (t : ℕ) → is_born (s.pc t) ≡ true → is_writer (s.pc t) ≡ (t % 2 == 0)
  pub beyond : (t : ℕ) → 4 ≤ t → s.pc t ≡ unborn
  pub stands : Stands s.counter s.pc s.main

rounds-le : (max c : ℕ) (p : Pc) → InRange max c p → rounds max p ≤ max
rounds-le max c (w_head i) h = h
rounds-le max c (w_load i) h = omega (arith, h)
rounds-le max c (w_store i v) h = omega (arith, h.0)
rounds-le max c (w_unlock i) h = omega (arith, h)
rounds-le max c _ h = omega arith

rounds_reader : (max : ℕ) (p : Pc) → is_writer p ≢ true → rounds max p ≡ 0
rounds_reader max unborn h = refl
rounds_reader max r_lock h = refl
rounds_reader max r_unlock h = refl
rounds_reader max r_test h = refl
rounds_reader max r_done h = refl
rounds_reader max _ h = absurd (h refl)

module _ (max : ℕ) (s : System) (inv : Inv max s) where
  -- Only threads 0 and 2 count.
  pub counter_sum : s.counter ≡ rounds max (s.pc 0) + rounds max (s.pc 2)
  unfolding total
  counter_sum = omega (
    arith,
    inv.account,
    rounds_reader max (s.pc 1) (λ e. ground (arith, inv.role 1)),
    rounds_reader max (s.pc 3) (λ e. ground (arith, inv.role 3)),
  )

  pub counter-le : s.counter ≤ 2 * max
  counter-le = omega (
    arith,
    counter_sum,
    rounds-le max s.counter (s.pc 0) (inv.range 0),
    rounds-le max s.counter (s.pc 2) (inv.range 2),
  )

  -- While a writer has rounds to make, the counter has not its last value.
  pub counter-lt :
      (t i : ℕ)
      → t < 4
      → is_writer (s.pc t) ≡ true
      → rounds max (s.pc t) ≡ i
      → i < max
      → s.counter < 2 * max
  counter-lt t i lt e same less =
      let which : (t ≡ 0) ⊎ (t ≡ 2) = ground (arith, inv.role t) in
      elim which [
        | inl zero_th ↦ ground (arith, counter_sum, rounds-le max s.counter (s.pc 2) (inv.range 2))
        | inr second ↦ ground (arith, counter_sum, rounds-le max s.counter (s.pc 0) (inv.range 0))
      ]
