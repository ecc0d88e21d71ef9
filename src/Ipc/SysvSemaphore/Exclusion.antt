-- ===== src/Ipc/SysvSemaphore/Exclusion.antt =====
-- Nobody uses the semaphore before it is initialised, and then it is a lock.
use linux_programing_demo.Common.{
  if◌then◌else◌, Bool-cases, ℕ, zero, suc, ◌+◌, ◌≤◌, ◌<◌, ◌≡◌, refl, ◌≢◌, inl, inr, Bool, true,
  false, some, arith, ℕ_discrete,
}
use linux_programing_demo.Threads.Family.{update, total, total-update, total-const}
use linux_programing_demo.Ipc.SysvSemaphore.{
  Pc, start, creating, setting, opening, ready, holding, posted, holding_again, tried, exited,
  failed, System, init, advance, Step, act, refuse, Reach, begin, next,
}

-- Between a `_semWait` and the `_semPost` or the exit that gives back.
abbrev pub holds : Pc → Bool
holds holding = true
holds holding_again = true
holds tried = true
holds _ = false

abbrev tokens : Pc → ℕ
tokens p = if holds p then 1 else 0

-- `_semCreateOrGet` has returned the id.
abbrev pub uses : Pc → Bool
uses start = false
uses creating = false
uses setting = false
uses (opening k) = false
uses failed = false
uses _ = true

abbrev making : Pc → Bool
making creating = true
making setting = true
making _ = false

abbrev Zeroed : ℕ → Pc → Type 0
Zeroed v setting = v ≡ 0
Zeroed v _ = Unit

pub record Inv (n : ℕ) (s : System) : Type 0 where
  pub born_first : s.otime ≡ true → s.born ≡ true
  pub raw : (t : ℕ) → s.otime ≡ false → uses (s.pc t) ≡ false
  pub making_raw : (t : ℕ) → making (s.pc t) ≡ true → (s.otime ≡ false) × (s.born ≡ true)
  pub single : (t u : ℕ) → making (s.pc t) ≡ true → making (s.pc u) ≡ true → t ≡ u
  pub zeroed : (t : ℕ) → Zeroed s.value (s.pc t)
  pub nobody : s.otime ≡ false → total tokens n s.pc ≡ 0
  pub token : s.otime ≡ true → s.value + total tokens n s.pc ≡ 1

module _ (n : ℕ) (s s' : System) (inv : Inv n s) (t : ℕ) (lt : t < n) where
  moved :
      (p : Pc) → total tokens n (update s.pc t p) + tokens (s.pc t) ≡ total tokens n s.pc + tokens p
  moved p = total-update tokens n t s.pc p lt

  advance-raw :
      (p : Pc)
      → s.pc t ≡ p
      → advance t p s ≡ some s'
      → (u : ℕ) → s'.otime ≡ false
      → uses (s'.pc u) ≡ false
  unfolding advance
  advance-raw start e h u r =
      ground (arith, inv.raw u, inv.raw t, inv.making_raw t, inv.making_raw u, inv.born_first)
  advance-raw _ e h u r =
      ground (arith, inv.raw u, inv.raw t, inv.making_raw t, inv.making_raw u, inv.born_first)

  advance-born : (p : Pc) → s.pc t ≡ p → advance t p s ≡ some s' → s'.otime ≡ true → s'.born ≡ true
  unfolding advance
  advance-born start e h r = ground (arith, inv.born_first, inv.making_raw t, inv.raw t)
  advance-born _ e h r = ground (arith, inv.born_first, inv.making_raw t, inv.raw t)

  advance-making :
      (p : Pc)
      → s.pc t ≡ p
      → advance t p s ≡ some s'
      → (u : ℕ) → making (s'.pc u) ≡ true
      → (s'.otime ≡ false) × (s'.born ≡ true)
  unfolding advance
  advance-making start e h u m = ground (
    arith,
    inv.raw u,
    inv.raw t,
    inv.making_raw t,
    inv.making_raw u,
    inv.born_first,
    inv.single t u,
  )
  advance-making _ e h u m = ground (
    arith,
    inv.raw u,
    inv.raw t,
    inv.making_raw t,
    inv.making_raw u,
    inv.born_first,
    inv.single t u,
  )

  advance-single :
      (p : Pc)
      → s.pc t ≡ p
      → advance t p s ≡ some s'
      → (u v : ℕ) → making (s'.pc u) ≡ true
      → making (s'.pc v) ≡ true
      → u ≡ v
  unfolding advance
  advance-single start e h u v m m' = ground (
    arith,
    inv.single u v,
    inv.single t v,
    inv.single u t,
    inv.making_raw u,
    inv.making_raw v,
    inv.making_raw t,
    inv.born_first,
  )
  advance-single _ e h u v m m' = ground (
    arith,
    inv.single u v,
    inv.single t v,
    inv.single u t,
    inv.making_raw u,
    inv.making_raw v,
    inv.making_raw t,
    inv.born_first,
  )

  advance-Zeroed :
      (p : Pc) → s.pc t ≡ p → advance t p s ≡ some s' → (u : ℕ) → Zeroed s'.value (s'.pc u)
  unfolding advance
  advance-Zeroed start e h u = ground (
    arith,
    inv.zeroed u,
    inv.zeroed t,
    inv.making_raw u,
    inv.making_raw t,
    inv.raw t,
    inv.single t u,
  )
  advance-Zeroed _ e h u = ground (
    arith,
    inv.zeroed u,
    inv.zeroed t,
    inv.making_raw u,
    inv.making_raw t,
    inv.raw t,
    inv.single t u,
  )

  -- The sum of the tokens and the value: 0 before the first `semop`, then 1.
  abbrev Balance : System → Type 0
  Balance r =
      (r.otime ≡ false → total tokens n r.pc ≡ 0)
      × (r.otime ≡ true → r.value + total tokens n r.pc ≡ 1)

  advance-Balance : (p : Pc) → s.pc t ≡ p → advance t p s ≡ some s' → Balance s'
  unfolding advance
  advance-Balance start e h = ground (
    arith,
    inv.nobody,
    inv.token,
    inv.raw t,
    inv.making_raw t,
    inv.zeroed t,
    inv.born_first,
    moved creating,
    moved (opening 2),
  )
  advance-Balance creating e h = ground (
    arith,
    inv.nobody,
    inv.token,
    inv.raw t,
    inv.making_raw t,
    inv.zeroed t,
    inv.born_first,
    moved setting,
  )
  advance-Balance setting e h = ground (
    arith,
    inv.nobody,
    inv.token,
    inv.raw t,
    inv.making_raw t,
    inv.zeroed t,
    inv.born_first,
    moved ready,
  )
  advance-Balance (opening zero) e h = ground (
    arith,
    inv.nobody,
    inv.token,
    inv.raw t,
    inv.making_raw t,
    inv.zeroed t,
    inv.born_first,
    moved ready,
    moved failed,
  )
  advance-Balance (opening (suc k)) e h = ground (
    arith,
    inv.nobody,
    inv.token,
    inv.raw t,
    inv.making_raw t,
    inv.zeroed t,
    inv.born_first,
    moved ready,
    moved (opening k),
  )
  advance-Balance ready e h = ground (
    arith,
    inv.nobody,
    inv.token,
    inv.raw t,
    inv.making_raw t,
    inv.zeroed t,
    inv.born_first,
    moved holding,
  )
  advance-Balance holding e h = ground (
    arith,
    inv.nobody,
    inv.token,
    inv.raw t,
    inv.making_raw t,
    inv.zeroed t,
    inv.born_first,
    moved posted,
  )
  advance-Balance posted e h = ground (
    arith,
    inv.nobody,
    inv.token,
    inv.raw t,
    inv.making_raw t,
    inv.zeroed t,
    inv.born_first,
    moved holding_again,
  )
  advance-Balance holding_again e h = ground (
    arith,
    inv.nobody,
    inv.token,
    inv.raw t,
    inv.making_raw t,
    inv.zeroed t,
    inv.born_first,
    moved tried,
  )
  advance-Balance tried e h = ground (
    arith,
    inv.nobody,
    inv.token,
    inv.raw t,
    inv.making_raw t,
    inv.zeroed t,
    inv.born_first,
    moved exited,
  )
  advance-Balance exited e h = cc
  advance-Balance failed e h = cc

  advance-Inv : advance t (s.pc t) s ≡ some s' → Inv n s'
  advance-Inv h = record {
    born_first = advance-born (s.pc t) refl h;
    raw = advance-raw (s.pc t) refl h;
    making_raw = advance-making (s.pc t) refl h;
    single = advance-single (s.pc t) refl h;
    zeroed = advance-Zeroed (s.pc t) refl h;
    nobody = (advance-Balance (s.pc t) refl h).0;
    token = (advance-Balance (s.pc t) refl h).1;
  }

refuse-Inv :
    (n : ℕ) (s : System) (t : ℕ)
    → Inv n s
    → t < n
    → s.pc t ≡ start
    → Inv n (record s { pc = update s.pc t failed })
refuse-Inv n s t inv lt e =
    let same = total-update tokens n t s.pc failed lt in
    record {
      born_first = inv.born_first;
      raw = λ u r. ground (arith, inv.raw u);
      making_raw = λ u m. ground (arith, inv.making_raw u);
      single = λ u v m m'. ground (arith, inv.single u v);
      zeroed = λ u. ground (arith, inv.zeroed u);
      nobody = λ r. ground (arith, inv.nobody, same);
      token = λ r. ground (arith, inv.token, same);
    }

init-Inv : (n : ℕ) → Inv n init
init-Inv n = record {
  born_first = λ e. cc;
  raw = λ u e. refl;
  making_raw = λ u e. cc;
  single = λ u v e. cc;
  zeroed = λ u. tt;
  nobody = λ e. omega (arith, total-const tokens n 0 (λ t. start) (λ t _. refl));
  token = λ e. cc;
}

Step-Inv : (n : ℕ) (s s' : System) → Inv n s → Step n s s' → Inv n s'
Step-Inv n s s' inv (act t lt h) = advance-Inv n s s' inv t lt h
Step-Inv n s s' inv (refuse t lt e q) = rw q (refuse-Inv n s t inv lt e)

Reach-Inv : (n : ℕ) {s : System} → Reach n s → Inv n s
Reach-Inv n begin = init-Inv n
Reach-Inv n (next {s = s} s' r st) = Step-Inv n s s' (Reach-Inv n r) st

two_tokens :
    (n t u : ℕ) (f : ℕ → Pc)
    → t < n
    → u < n
    → t ≢ u
    → tokens (f t) + tokens (f u) ≤ total tokens n f
two_tokens n t u f lt ltu ne = ground (
  arith,
  total-update tokens n t f start lt,
  total-update tokens n u (update f t start) start ltu,
)

uses_ready :
    (n : ℕ) (s : System)
    → Inv n s
    → (t : ℕ) → uses (s.pc t) ≡ true
    → (s.otime ≡ true) × (s.value ≤ 1)
uses_ready n s inv t e = elim (Bool-cases s.otime) [
  | inl o ↦ (o, omega (arith, inv.token o))
  | inr o ↦ absurd (cc (inv.raw t o))
]

-- However the processes interleave: a process that `_semCreateOrGet` gave the id runs after the
-- initialisation, that is after the creator's `semop`; the value is never above 1 from then on;
-- and no two processes are between a wait and what gives it back.
pub semaphore_safe :
    (n : ℕ) (s : System)
    → Reach n s
    → ((t : ℕ) → uses (s.pc t) ≡ true → (s.otime ≡ true) × (s.value ≤ 1))
      × ((t u : ℕ) → t < n → u < n → holds (s.pc t) ≡ true → holds (s.pc u) ≡ true → t ≡ u)
semaphore_safe n s r =
    let inv = Reach-Inv n r in
    (
      λ t e. uses_ready n s inv t e,
      λ t u lt ltu h h'. elim (ℕ_discrete t u) [
        | yes same ↦ same
        | no other ↦
            absurd
              (ground (arith, inv.nobody, inv.token, inv.raw t, two_tokens n t u s.pc lt ltu other))
      ],
    )

abbrev pub Ended : Pc → Type 0
Ended exited = Unit
Ended failed = Unit
Ended _ = ⊥

Ended-tokens : (p : Pc) → Ended p → tokens p ≡ 0
Ended-tokens exited e = refl
Ended-tokens failed e = refl
Ended-tokens start e = absurd e
Ended-tokens _ e = absurd e

-- When every process has ended, the semaphore, if it was initialised, is back at its value 1,
-- though the processes never post after their second wait: SEM_UNDO does.
pub semaphore_restored :
    (n : ℕ) (s : System)
    → Reach n s
    → ((t : ℕ) → t < n → Ended (s.pc t))
    → s.otime ≡ true
    → s.value ≡ 1
semaphore_restored n s r ended o =
    let inv = Reach-Inv n r in
    omega
      (arith, inv.token o, total-const tokens n 0 s.pc (λ t lt. Ended-tokens (s.pc t) (ended t lt)))
