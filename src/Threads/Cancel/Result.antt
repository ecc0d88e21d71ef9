-- ===== src/Threads/Cancel/Result.antt =====
-- How the thread ends.
use linux_programing_demo.Common.{
  leb, ℕ, ◌≤◌, ◌<◌, ◌≡◌, refl, ◌∙◌, ◌⊎◌, Bool, true, false, not, none, some, arith,
}
use linux_programing_demo.Threads.Cancel.{
  Child, absent, set_type, set_state, head, asleep, enabling, last_print, returned, cancelled, Main,
  creating, sleeping, cancelling, joining, reported, gave_up, System, init, func, cancel, master,
  is_running, Run, here, act, stop, lead,
}

-- When the cancellation is enabled: not in the first round, and in all others.
abbrev Enabled : ℕ → Bool → Child → Type 0
Enabled t b (head i) = (0 < i → b ≡ true) × (i ≡ 0 → b ≡ false)
Enabled t b (asleep i) = (0 < i → b ≡ true) × (i ≡ 0 → b ≡ false) × (i < t)
Enabled t b (enabling i) = i ≡ 0
Enabled t b (returned v) = v ≡ t
Enabled t b _ = Unit

abbrev pub is_ended : Child → Bool
is_ended (returned v) = true
is_ended cancelled = true
is_ended _ = false

abbrev is_there : Child → Bool
is_there absent = false
is_there _ = true

-- Where `main` is, by the child.
abbrev Agrees : Bool → Child → Main → Type 0
Agrees p c creating = (is_there c ≡ false) × (p ≡ false)
Agrees p c (reported none) = c ≡ cancelled
Agrees p c (reported (some v)) = c ≡ returned v
Agrees p c gave_up = Unit
Agrees p c joining = (is_there c ≡ true) × (p ≡ true)
Agrees p c _ = (is_there c ≡ true) × (p ≡ false)

record Inv (t : ℕ) (s : System) : Type 0 where
  enabled_ok : Enabled t s.enabled s.child
  agrees : Agrees s.pending s.child s.main

module _ (t : ℕ) (s s' : System) (inv : Inv t s) (run : is_running s.main ≡ true) where
  func-enabled : (c : Child) → s.child ≡ c → func t c s ≡ some s' → Enabled t s'.enabled s'.child
  unfolding func
  func-enabled set_type e h = ground arith
  func-enabled set_state e h = ground arith
  func-enabled (head i) e h = ground (arith, inv.enabled_ok)
  func-enabled (asleep i) e h = ground (arith, inv.enabled_ok)
  func-enabled (enabling i) e h = ground (arith, inv.enabled_ok)
  func-enabled _ e h = ground arith

  func-moves :
      (c : Child)
      → s.child ≡ c
      → func t c s ≡ some s'
      → (is_there c ≡ true)
        × (is_ended c ≡ false)
        × (is_there s'.child ≡ true)
        × (s'.pending ≡ s.pending)
        × (s'.main ≡ s.main)
  unfolding func
  func-moves (head i) e h = (refl, refl, ground arith, ground arith, ground arith)
  func-moves (asleep i) e h = (refl, refl, ground arith, ground arith, ground arith)
  func-moves absent e h = cc
  func-moves (returned v) e h = cc
  func-moves cancelled e h = cc
  func-moves _ e h = (refl, refl, ground arith, ground arith, ground arith)

  cancel-moves :
      (c : Child)
      → s.child ≡ c
      → cancel c s ≡ some s'
      → (is_there c ≡ true)
        × (is_ended c ≡ false)
        × (s'.child ≡ cancelled)
        × (s'.pending ≡ s.pending)
        × (s'.main ≡ s.main)
        × (s.enabled ≡ true)
        × (s.pending ≡ true)
  unfolding cancel
  cancel-moves c e h = (
    ground arith,
    ground arith,
    ground arith,
    ground arith,
    ground arith,
    ground arith,
    ground arith,
  )

  -- The child moves while `main` is where it was.
  moved-Agrees :
      (m : Main)
      → s.main ≡ m
      → is_there s.child ≡ true
      → is_there s'.child ≡ true
      → s'.pending ≡ s.pending
      → Agrees s'.pending s'.child m
  moved-Agrees creating e a b p = ground (arith, inv.agrees)
  moved-Agrees (reported r) e a b p = ground (arith, run)
  moved-Agrees gave_up e a b p = tt
  moved-Agrees sleeping e a b p = ground (arith, inv.agrees)
  moved-Agrees cancelling e a b p = ground (arith, inv.agrees)
  moved-Agrees joining e a b p = ground (arith, inv.agrees)

  func-Inv : func t s.child s ≡ some s' → Inv t s'
  func-Inv h =
      let (there, alive, there', same, stays) = func-moves s.child refl h in
      record {
        enabled_ok = func-enabled s.child refl h;
        agrees = rw stays (moved-Agrees s.main refl there there' same);
      }

  cancel-Inv : cancel s.child s ≡ some s' → Inv t s'
  cancel-Inv h =
      let (there, alive, now, same, stays, on, asked) = cancel-moves s.child refl h in
      record {
        enabled_ok = rw now tt;
        agrees = rw stays (moved-Agrees s.main refl there (rw now refl) same);
      }

module _ (t : ℕ) (s s' : System) (inv : Inv t s) where
  master-Inv : (ok : Bool) (m : Main) → s.main ≡ m → master ok m s ≡ some s' → Inv t s'
  unfolding master
  master-Inv ok creating e h = record {
    enabled_ok = ground (arith, inv.enabled_ok, inv.agrees);
    agrees = ground (arith, inv.agrees);
  }
  master-Inv ok sleeping e h = record {
    enabled_ok = ground (arith, inv.enabled_ok);
    agrees = ground (arith, inv.agrees);
  }
  master-Inv ok cancelling e h = record {
    enabled_ok = ground (arith, inv.enabled_ok);
    agrees = ground (arith, inv.agrees);
  }
  master-Inv ok joining e h = record {
    enabled_ok = ground (arith, inv.enabled_ok);
    agrees = ground (arith, inv.agrees);
  }
  master-Inv ok (reported r) e h = cc
  master-Inv ok gave_up e h = cc

init-Inv : (t : ℕ) → Inv t init
init-Inv t = record { enabled_ok = tt; agrees = (refl, refl) }

Run-Inv : (t : ℕ) {s0 s : System} → Inv t s0 → Run t s0 s → Inv t s
Run-Inv t inv here = inv
Run-Inv t inv (act {s = s} s' r run h) = func-Inv t s s' (Run-Inv t inv r) run h
Run-Inv t inv (stop {s = s} s' r run h) = cancel-Inv t s s' (Run-Inv t inv r) run h
Run-Inv t inv (lead {s = s} s' ok r h) = master-Inv t s s' (Run-Inv t inv r) ok s.main refl h

-- The thread has its last sleep behind it.
abbrev pub is_past : ℕ → Child → Bool
is_past t (head i) = leb t i
is_past t last_print = true
is_past t (returned v) = true
is_past t _ = false

-- A request is not forgotten, and while it is pending the last sleep is not passed.
abbrev Caught : ℕ → System → Type 0
Caught t s = (s.pending ≡ true) × (is_past t s.child ≡ false)

module _ (t : ℕ) (two : 2 ≤ t) (s s' : System) (inv : Inv t s) (c : Caught t s) where
  func-Caught : (x : Child) → s.child ≡ x → func t x s ≡ some s' → Caught t s'
  unfolding func
  func-Caught set_type e h = ground (arith, c)
  func-Caught set_state e h = ground (arith, c)
  func-Caught (head i) e h = ground (arith, c)
  func-Caught (asleep i) e h = ground (arith, c, inv.enabled_ok)
  func-Caught (enabling i) e h = ground (arith, c, inv.enabled_ok)
  func-Caught _ e h = ground (arith, c)

  master-Caught : (ok : Bool) (m : Main) → s.main ≡ m → master ok m s ≡ some s' → Caught t s'
  unfolding master
  master-Caught ok creating e h = ground (arith, c, inv.agrees)
  master-Caught ok sleeping e h = ground (arith, c)
  master-Caught ok cancelling e h = ground (arith, c)
  master-Caught ok joining e h = ground (arith, c)
  master-Caught ok (reported r) e h = cc
  master-Caught ok gave_up e h = cc

Run-Caught : (t : ℕ) {s0 s : System} → 2 ≤ t → Inv t s0 → Caught t s0 → Run t s0 s → Caught t s
Run-Caught t two inv c here = c
Run-Caught t two inv c (act {s = s} s' r run h) =
    func-Caught t two s s' (Run-Inv t inv r) (Run-Caught t two inv c r) s.child refl h
Run-Caught t two inv c (stop {s = s} s' r run h) =
    let m = cancel-moves t s s' (Run-Inv t inv r) run s.child refl h in
    (m.3 ∙ (Run-Caught t two inv c r).0, rw m.2 refl)
Run-Caught t two inv c (lead {s = s} s' ok r h) =
    master-Caught t two s s' (Run-Inv t inv r) (Run-Caught t two inv c r) ok s.main refl h

-- `main` is at an end.
abbrev pub is_over : Main → Bool
is_over m = not (is_running m)

stuck_child :
    (t : ℕ) (s : System) (c : Child)
    → Inv t s
    → s.child ≡ c
    → is_there c ≡ true
    → func t c s ≡ none
    → cancel c s ≡ none
    → is_ended c ≡ true
unfolding func cancel
stuck_child t s (asleep i) inv e b h k = absurd (ground arith)
stuck_child t s (returned v) inv e b h k = refl
stuck_child t s cancelled inv e b h k = refl
stuck_child t s absent inv e b h k = cc
stuck_child t s (head i) inv e b h k = cc
stuck_child t s _ inv e b h k = cc

stuck_main :
    (t : ℕ) (s : System) (m : Main)
    → Inv t s
    → s.main ≡ m
    → (is_there s.child ≡ true → is_ended s.child ≡ true)
    → master true m s ≡ none
    → is_over m ≡ true
unfolding master
stuck_main t s (reported r) inv e b h = refl
stuck_main t s gave_up inv e b h = refl
stuck_main t s joining inv e b h = absurd (ground (arith, inv.agrees, b))
stuck_main t s _ inv e b h = cc

-- The thread has nothing left to do, and `main` neither, if its call succeeds.
abbrev pub IsStuck : ℕ → System → Type 0
IsStuck t s = (func t s.child s ≡ none) × (cancel s.child s ≡ none) × (master true s.main s ≡ none)

stuck-over : (t : ℕ) (s : System) → Inv t s → IsStuck t s → is_over s.main ≡ true
stuck-over t s inv h =
    stuck_main t s s.main inv refl (λ b. stuck_child t s s.child inv refl b h.0 h.1) h.2

-- In every run, a state where nothing can move is one where `main` has ended: with -1 after a call that
-- failed, or with the report that the thread was cancelled, which it was, or with the value t, which the
-- thread has returned.
pub join_reports :
    (t : ℕ) (s : System)
    → Run t init s
    → IsStuck t s
    → (s.main ≡ gave_up)
      ⊎ ((s.main ≡ reported none) × (s.child ≡ cancelled)
          ⊎ (s.main ≡ reported (some t)) × (s.child ≡ returned t))
join_reports t s r stuck =
    let inv = Run-Inv t (init-Inv t) r in
    let over = stuck-over t s inv stuck in ground (arith, inv.agrees, inv.enabled_ok)

-- When the thread has two rounds or more and the request comes before it has its last sleep behind it,
-- also while its cancellation is disabled: however it goes on, a state where nothing can move is one
-- where `main` reports that the thread was cancelled, unless a call of `main` failed.
pub request_acted :
    (t : ℕ) (s s' : System)
    → 2 ≤ t
    → Run t init s
    → s.pending ≡ true
    → is_past t s.child ≡ false
    → Run t s s'
    → IsStuck t s'
    → (s'.main ≡ reported none) ⊎ (s'.main ≡ gave_up)
request_acted t s s' two r asked before r' stuck =
    let inv = Run-Inv t (init-Inv t) r in
    let inv' = Run-Inv t inv r' in
    let c = Run-Caught t two inv (asked, before) r' in
    let over = stuck-over t s' inv' stuck in ground (arith, inv'.agrees, c.1)
