-- ===== src/Threads/LockedCounter.antt =====
-- Threads that add to a shared counter under a lock: `_func` of thread/mutex/main.c and of
-- thread/spin-lock/main.c, and the loops of process/posix-ipc/semaphore/unnamed.c. The loop is
-- modelled once, over the lock as an interface; each access to shared memory is one step.
pub mod Invariant
pub mod Outcome
use linux_programing_demo.Common.{
  ltb, if◌then◌else◌, ℕ, suc, ◌+◌, ◌-◌, ◌%◌, ◌<◌, ◌≡◌, ◌≢◌, Option, none, some,
}
use linux_programing_demo.Threads.Family.{update}

-- What an acquiring call does: it returns 0 with the lock in a new state, blocks, or returns an
-- error code.
pub data Acquired {ℓ} (A : Type ℓ) : Type ℓ where
  granted : A → Acquired A
  blocks : Acquired A
  refused : ℕ → Acquired A

-- A lock for the callers named by numbers. `release` gives none for an error code.
pub record Lock : Type 1 where
  pub State : Type 0
  pub free : State
  pub held : ℕ → State
  pub acquire : ℕ → State → Acquired State
  pub release : ℕ → State → Option State
  pub acquire-free : (t : ℕ) → acquire t free ≡ granted (held t)
  pub acquire-held : (t u : ℕ) → t ≢ u → acquire t (held u) ≡ blocks
  pub release-held : (t : ℕ) → release t (held t) ≡ some free

-- Where a thread stands in `_func`: at the head of the loop with its `i`, before the load and
-- before the store of `counter++`, before the release, or returned early after an error.
pub data Pc : Type 0 where
  head : ℕ → Pc
  locked : ℕ → Pc
  loaded : ℕ → ℕ → Pc
  stored : ℕ → Pc
  failed : Pc

-- The loop is left: `return NULL` at the end.
abbrev pub IsDone : ℕ → Pc → Type 0
IsDone max (head i) = i ≡ max
IsDone max _ = ⊥

-- The lock `L`, the loop's bound, and the modulus at which the counter wraps round.
module _ (L : Lock) (max modulus : ℕ) where
  pub record System : Type 0 where
    pub lock : L.State
    pub counter : ℕ
    pub pc : ℕ → Pc

  unfoldable pub init : System
  init = record { lock = L.free; counter = 0; pc = λ _. head 0 }

  -- The next shared access of thread `t`, by where it stands; none if it blocks or is finished.
  unfoldable pub advance : ℕ → Pc → System → Option System
  advance t (head i) s =
      if ltb i max
      then elim (L.acquire t s.lock) [
        | granted l ↦ some (record s { lock = l; pc = update s.pc t (locked i) })
        | blocks ↦ none
        | refused e ↦ some (record s { pc = update s.pc t failed })
      ]
      else none
  advance t (locked i) s = some (record s { pc = update s.pc t (loaded i s.counter) })
  advance t (loaded i v) s =
      some (record s { counter = (v + 1) % modulus; pc = update s.pc t (stored i) })
  advance t (stored i) s = elim (L.release t s.lock) [
    | none ↦ some (record s { pc = update s.pc t failed })
    | some l ↦ some (record s { lock = l; pc = update s.pc t (head (i + 1)) })
  ]
  advance t failed s = none

  unfoldable pub step : ℕ → System → Option System
  unfolding advance
  step t s = advance t (s.pc t) s

  -- `n` threads interleaved in any order: the states after k steps.
  pub data Reach (n : ℕ) : ℕ → System → Type 0 where
    start : Reach n 0 init
    next :
        {k : ℕ} {s : System} (s' : System) (t : ℕ)
        → Reach n k s
        → t < n
        → step t s ≡ some s'
        → Reach n (suc k) s'
