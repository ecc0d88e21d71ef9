-- ===== src/Ipc/SharedMemory/Sysv.antt =====
-- The System V program loses no count.
use linux_programing_demo.Common.{
  ℕ, ◌+◌, ◌*◌, ◌^◌, ◌≤◌, ◌<◌, ◌≡◌, refl, ◌≢◌, Bool, true, false, Option, none, some, arith,
}
use linux_programing_demo.Threads.Family.{update, total, total-update, total-const, total-le}
use linux_programing_demo.Ipc.SharedMemory.{
  Pc, start, truncating, mapping, setting, opened, counting, printed, ended, elsewhere, failed,
  killed, System, init, advance_sysv, may_fail, Reach, begin, act, refuse,
}

-- The rounds that a process has made.
abbrev pub rounds : ℕ → Pc → ℕ
rounds max (counting i) = i
rounds max (printed v) = max
rounds max ended = max
rounds max _ = 0

-- What a process may have counted, and printed of the number `number`.
abbrev InRange : ℕ → ℕ → Pc → Type 0
InRange max number (counting i) = i ≤ max
InRange max number (printed v) = v ≤ number
InRange max number killed = ⊥
InRange max number _ = Unit

abbrev uses : Pc → Bool
uses start = false
uses failed = false
uses elsewhere = false
uses _ = true

abbrev is_made : Option ℕ → Bool
is_made none = false
is_made (some c) = true

record Inv (n max : ℕ) (s : System) : Type 0 where
  account : s.number ≡ total (rounds max) n s.pc
  range : (t : ℕ) → InRange max s.number (s.pc t)
  unmade : is_made s.creator ≡ false → s.number ≡ 0
  made : (t : ℕ) → uses (s.pc t) ≡ true → is_made s.creator ≡ true
  has_size : is_made s.creator ≡ true → s.sized ≡ true

rounds-le : (max number : ℕ) (p : Pc) → InRange max number p → rounds max p ≤ max
rounds-le max number (counting i) h = h
rounds-le max number (printed v) h = omega arith
rounds-le max number killed h = absurd h
rounds-le max number _ h = omega arith

range_up : (max a b : ℕ) (p : Pc) → a ≤ b → InRange max a p → InRange max b p
range_up max a b (printed v) le h = omega (arith, le, h)
range_up max a b (counting i) le h = h
range_up max a b _ le h = h

rounds_none : (max : ℕ) (p : Pc) → may_fail p ≡ true → rounds max p ≡ 0
rounds_none max start e = refl
rounds_none max mapping e = refl
rounds_none max opened e = refl
rounds_none max _ e = cc

number_small : (n max : ℕ) (s : System) → Inv n max s → s.number ≤ n * max
number_small n max s inv =
    rw inv.account
      (total-le (rounds max) n max s.pc (λ t lt. rounds-le max s.number (s.pc t) (inv.range t)))

module _ (n max : ℕ) (fits : n * max < 2 ^ 31) (s s' : System) (t : ℕ) (lt : t < n)
    (inv : Inv n max s) where
  moved :
      (p : Pc)
      → total (rounds max) n (update s.pc t p) + rounds max (s.pc t)
        ≡ total (rounds max) n s.pc + rounds max p
  moved p = total-update (rounds max) n t s.pc p lt

  advance_sysv-account :
      (p : Pc)
      → s.pc t ≡ p
      → advance_sysv max t p s ≡ some s'
      → s'.number ≡ total (rounds max) n s'.pc
  unfolding advance_sysv
  advance_sysv-account start e h =
      ground (arith, inv.account, inv.unmade, moved elsewhere, moved opened)
  advance_sysv-account opened e h = ground (arith, inv.account, moved (counting 0))
  advance_sysv-account (counting i) e h = ground (
    arith,
    inv.account,
    inv.range t,
    number_small n max s inv,
    fits,
    moved (counting (i + 1)),
    moved (printed s.number),
    moved killed,
    inv.made t,
    inv.has_size,
  )
  advance_sysv-account (printed v) e h = ground (arith, inv.account, moved ended)
  advance_sysv-account truncating e h = cc
  advance_sysv-account mapping e h = cc
  advance_sysv-account setting e h = cc
  advance_sysv-account ended e h = cc
  advance_sysv-account elsewhere e h = cc
  advance_sysv-account failed e h = cc
  advance_sysv-account killed e h = cc

  advance_sysv-range :
      (p : Pc) (u : ℕ)
      → s.pc t ≡ p
      → advance_sysv max t p s ≡ some s'
      → InRange max s'.number (s'.pc u)
  unfolding advance_sysv
  advance_sysv-range start u e h = ground (arith, inv.range u, inv.unmade)
  advance_sysv-range (counting i) u e h = ground (
    arith,
    inv.range t,
    range_up max s.number (s.number + 1) (s.pc u) (omega arith) (inv.range u),
    inv.range u,
    number_small n max s inv,
    fits,
    inv.made t,
    inv.has_size,
  )
  advance_sysv-range _ u e h = ground (arith, inv.range u)

  advance_sysv-made :
      (p : Pc) (u : ℕ)
      → s.pc t ≡ p
      → advance_sysv max t p s ≡ some s'
      → uses (s'.pc u) ≡ true
      → is_made s'.creator ≡ true
  unfolding advance_sysv
  advance_sysv-made start u e h = ground (arith, inv.made u)
  advance_sysv-made _ u e h = ground (arith, inv.made u, inv.made t)

  advance_sysv-has_size :
      (p : Pc)
      → s.pc t ≡ p
      → advance_sysv max t p s ≡ some s'
      → is_made s'.creator ≡ true
      → s'.sized ≡ true
  unfolding advance_sysv
  advance_sysv-has_size start e h = ground (arith, inv.has_size)
  advance_sysv-has_size _ e h = ground (arith, inv.has_size)

  advance_sysv-unmade :
      (p : Pc)
      → s.pc t ≡ p
      → advance_sysv max t p s ≡ some s'
      → is_made s'.creator ≡ false
      → s'.number ≡ 0
  unfolding advance_sysv
  advance_sysv-unmade start e h = ground (arith, inv.unmade)
  advance_sysv-unmade _ e h = ground (arith, inv.unmade, inv.made t)

  advance_sysv-Inv : advance_sysv max t (s.pc t) s ≡ some s' → Inv n max s'
  advance_sysv-Inv h = record {
    account = advance_sysv-account (s.pc t) refl h;
    range = λ u. advance_sysv-range (s.pc t) u refl h;
    unmade = advance_sysv-unmade (s.pc t) refl h;
    made = λ u. advance_sysv-made (s.pc t) u refl h;
    has_size = advance_sysv-has_size (s.pc t) refl h;
  }

  refuse-Inv : may_fail (s.pc t) ≡ true → Inv n max (record s { pc = update s.pc t failed })
  refuse-Inv e = record {
    account = ground (arith, inv.account, rounds_none max (s.pc t) e, moved failed);
    range = λ u. ground (arith, inv.range u);
    unmade = inv.unmade;
    made = λ u. ground (arith, inv.made u);
    has_size = inv.has_size;
  }

init-Inv : (n max : ℕ) → Inv n max init
init-Inv n max = record {
  account = omega (arith, total-const (rounds max) n 0 (λ _. start) (λ _ _. refl));
  range = λ t. tt;
  unmade = λ e. refl;
  made = λ t e. cc;
  has_size = λ e. cc;
}

Reach-Inv : (n max : ℕ) {s : System} → n * max < 2 ^ 31 → Reach (advance_sysv max) n s → Inv n max s
Reach-Inv n max fits begin = init-Inv n max
Reach-Inv n max fits (act {s = s} s' t r lt h) =
    advance_sysv-Inv n max fits s s' t lt (Reach-Inv n max fits r) h
Reach-Inv n max fits (refuse {s = s} s' t r lt e same) =
    rw same (refuse-Inv n max fits s s' t lt (Reach-Inv n max fits r) e)

-- However the processes of the System V program interleave, and whichever of them removes the segment
-- first: no access is to a segment without a size, the number is the sum of the rounds made, no number
-- that is printed is above it, and a process that ends its loop after all others prints n * max.
pub rounds_counted :
    (n max : ℕ) (s : System)
    → n * max < 2 ^ 31
    → Reach (advance_sysv max) n s
    → (s.number ≡ total (rounds max) n s.pc)
      × ((t : ℕ) → s.pc t ≢ killed)
      × ((t v : ℕ) → s.pc t ≡ printed v → v ≤ s.number)
      × ((t : ℕ) (s' : System)
          → t < n
          → ((u : ℕ) → u < n → rounds max (s.pc u) ≡ max)
          → s.pc t ≡ counting max
          → advance_sysv max t (s.pc t) s ≡ some s'
          → s'.pc t ≡ printed (n * max))
unfolding advance_sysv
rounds_counted n max s fits r =
    let inv = Reach-Inv n max fits r in
    (
      inv.account,
      λ t e. ground (arith, inv.range t),
      λ t v e. ground (arith, inv.range t),
      λ t s' lt all e h. ground (
        arith,
        e,
        h,
        inv.account,
        total-const (rounds max) n max s.pc all,
        inv.made t,
        inv.has_size,
      ),
    )
