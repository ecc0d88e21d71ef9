-- ===== src/Ipc/UnnamedSemaphore/Orderly.antt =====
-- What holds in every run of unnamed.c in which no process is too early, and the loop's view of it.
use linux_programing_demo.Common.{
  if◌then◌else◌, ℕ, ◌^◌, ◌≤◌, ◌<◌, ◌≡◌, refl, Bool, true, false, none, some, arith,
}
use linux_programing_demo.Threads.Family.{update}
use linux_programing_demo.Threads.LockedCounter
use linux_programing_demo.Ipc.UnnamedSemaphore.{semaphore}
use linux_programing_demo.Ipc.UnnamedSemaphore.Startup.{
  Pc, start, truncating, mapping, initialising, opened, head, locked, loaded, stored, printed,
  ended, failed, killed, undefined, System, init, wait_at, advance, may_fail, Reach, begin, act,
  refuse,
}

-- Where a process stands in the loop; before it, as at its head, and after it, as at its end.
abbrev pub place : ℕ → Pc → LockedCounter.Pc
place max (head i) = LockedCounter.head i
place max (locked i) = LockedCounter.locked i
place max (loaded i v) = LockedCounter.loaded i v
place max (stored i) = LockedCounter.stored i
place max (printed v) = LockedCounter.head max
place max ended = LockedCounter.head max
place max _ = LockedCounter.head 0

-- The loop's view of a state: a semaphore that is not initialised has its value still before it.
unfoldable pub view : (max : ℕ) → System → LockedCounter.System semaphore max (2 ^ 32)
unfolding semaphore
view max s = record {
  lock = if s.ready then s.value else 1;
  counter = s.number;
  pc = λ t. place max (s.pc t);
}

-- Before the semaphore is ready a process is in none of these.
abbrev pub in_loop : Pc → Bool
in_loop (head i) = true
in_loop (locked i) = true
in_loop (loaded i v) = true
in_loop (stored i) = true
in_loop (printed v) = true
in_loop ended = true
in_loop _ = false

abbrev pub in_setup : Pc → Bool
in_setup truncating = true
in_setup mapping = true
in_setup initialising = true
in_setup _ = false

abbrev pub in_trouble : Pc → Bool
in_trouble killed = true
in_trouble undefined = true
in_trouble _ = false

abbrev pub has_size : Pc → Bool
has_size mapping = true
has_size initialising = true
has_size _ = false

abbrev pub Bounded : ℕ → Pc → Type 0
Bounded max (head i) = i ≤ max
Bounded max (locked i) = i < max
Bounded max (loaded i v) = i < max
Bounded max (stored i) = i < max
Bounded max _ = Unit

pub record Inv (max : ℕ) (s : System) : Type 0 where
  pub settled : (t : ℕ) → in_loop (s.pc t) ≡ true → s.ready ≡ true
  pub setup : (t : ℕ) → in_setup (s.pc t) ≡ true → s.creator ≡ some t
  pub once : (t : ℕ) → s.ready ≡ true → in_setup (s.pc t) ≡ false
  pub made : s.creator ≡ none → s.ready ≡ false
  pub sized_first : (t : ℕ) → has_size (s.pc t) ≡ true → s.sized ≡ true
  pub sized_all : s.ready ≡ true → s.sized ≡ true
  pub well : (t : ℕ) → in_trouble (s.pc t) ≡ false
  pub bounded : (t : ℕ) → Bounded max (s.pc t)

module _ (max : ℕ) (s s' : System) (t : ℕ) (inv : Inv max s)
    (orderly : s.pc t ≡ opened → s.ready ≡ true) where
  advance-settled :
      (p : Pc) (u : ℕ)
      → s.pc t ≡ p
      → advance max t p s ≡ some s'
      → in_loop (s'.pc u) ≡ true
      → s'.ready ≡ true
  unfolding advance wait_at
  advance-settled start u e h = ground (arith, inv.settled u)
  advance-settled (head i) u e h = ground (arith, inv.settled u, inv.settled t)
  advance-settled opened u e h = ground (arith, inv.settled u, orderly)
  advance-settled _ u e h = ground (arith, inv.settled u, inv.settled t)

  advance-setup :
      (p : Pc) (u : ℕ)
      → s.pc t ≡ p
      → advance max t p s ≡ some s'
      → in_setup (s'.pc u) ≡ true
      → s'.creator ≡ some u
  unfolding advance wait_at
  advance-setup start u e h = ground (arith, inv.setup u)
  advance-setup (head i) u e h = ground (arith, inv.setup u)
  advance-setup _ u e h = ground (arith, inv.setup u, inv.setup t)

  advance-once :
      (p : Pc) (u : ℕ)
      → s.pc t ≡ p
      → advance max t p s ≡ some s'
      → s'.ready ≡ true
      → in_setup (s'.pc u) ≡ false
  unfolding advance wait_at
  advance-once start u e h = ground (arith, inv.once u, inv.made)
  advance-once initialising u e h = ground (arith, inv.once u, inv.setup u, inv.setup t)
  advance-once (head i) u e h = ground (arith, inv.once u)
  advance-once _ u e h = ground (arith, inv.once u, inv.once t)

  advance-made :
      (p : Pc) → s.pc t ≡ p → advance max t p s ≡ some s' → s'.creator ≡ none → s'.ready ≡ false
  unfolding advance wait_at
  advance-made start e h = ground (arith, inv.made)
  advance-made initialising e h = ground (arith, inv.setup t)
  advance-made (head i) e h = ground (arith, inv.made)
  advance-made _ e h = ground (arith, inv.made)

  advance-sized_first :
      (p : Pc) (u : ℕ)
      → s.pc t ≡ p
      → advance max t p s ≡ some s'
      → has_size (s'.pc u) ≡ true
      → s'.sized ≡ true
  unfolding advance wait_at
  advance-sized_first start u e h = ground (arith, inv.sized_first u)
  advance-sized_first (head i) u e h = ground (arith, inv.sized_first u)
  advance-sized_first _ u e h = ground (arith, inv.sized_first u, inv.sized_first t)

  advance-sized_all :
      (p : Pc) → s.pc t ≡ p → advance max t p s ≡ some s' → s'.ready ≡ true → s'.sized ≡ true
  unfolding advance wait_at
  advance-sized_all start e h = ground (arith, inv.sized_all)
  advance-sized_all initialising e h = ground (arith, inv.sized_first t)
  advance-sized_all (head i) e h = ground (arith, inv.sized_all)
  advance-sized_all _ e h = ground (arith, inv.sized_all)

  advance-well :
      (p : Pc) (u : ℕ) → s.pc t ≡ p → advance max t p s ≡ some s' → in_trouble (s'.pc u) ≡ false
  unfolding advance wait_at
  advance-well start u e h = ground (arith, inv.well u)
  advance-well (head i) u e h = ground (arith, inv.well u, inv.settled t, inv.sized_all)
  advance-well _ u e h = ground (arith, inv.well u)

  advance-Bounded :
      (p : Pc) (u : ℕ) → s.pc t ≡ p → advance max t p s ≡ some s' → Bounded max (s'.pc u)
  unfolding advance wait_at
  advance-Bounded start u e h = ground (arith, inv.bounded u)
  advance-Bounded (head i) u e h = ground (arith, inv.bounded u, inv.bounded t)
  advance-Bounded _ u e h = ground (arith, inv.bounded u, inv.bounded t)

  advance-Inv : advance max t (s.pc t) s ≡ some s' → Inv max s'
  advance-Inv h = record {
    settled = λ u. advance-settled (s.pc t) u refl h;
    setup = λ u. advance-setup (s.pc t) u refl h;
    once = λ u. advance-once (s.pc t) u refl h;
    made = advance-made (s.pc t) refl h;
    sized_first = λ u. advance-sized_first (s.pc t) u refl h;
    sized_all = advance-sized_all (s.pc t) refl h;
    well = λ u. advance-well (s.pc t) u refl h;
    bounded = λ u. advance-Bounded (s.pc t) u refl h;
  }

refuse-Inv :
    (max : ℕ) (s : System) (t : ℕ)
    → Inv max s
    → may_fail (s.pc t) ≡ true
    → Inv max (record s { pc = update s.pc t failed })
refuse-Inv max s t inv e = record {
  settled = λ u. ground (arith, inv.settled u);
  setup = λ u. ground (arith, inv.setup u);
  once = λ u. ground (arith, inv.once u);
  made = inv.made;
  sized_first = λ u. ground (arith, inv.sized_first u);
  sized_all = inv.sized_all;
  well = λ u. ground (arith, inv.well u);
  bounded = λ u. ground (arith, inv.bounded u);
}

init-Inv : (max : ℕ) → Inv max init
init-Inv max = record {
  settled = λ t e. cc;
  setup = λ t e. cc;
  once = λ t e. cc;
  made = λ e. refl;
  sized_first = λ t e. cc;
  sized_all = λ e. cc;
  well = λ t. refl;
  bounded = λ t. tt;
}

pub Reach-Inv : (max n : ℕ) {s : System} → Reach max n true s → Inv max s
Reach-Inv max n begin = init-Inv max
Reach-Inv max n (act {s = s} s' t r lt o h) = advance-Inv max s s' t (Reach-Inv max n r) (o refl) h
Reach-Inv max n (refuse {s = s} s' t r lt e same) =
    rw same (refuse-Inv max s t (Reach-Inv max n r) e)
