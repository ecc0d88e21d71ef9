-- ===== src/Ipc/NamedSemaphore/Balance.antt =====
-- What the processes leave in the semaphore.
use linux_programing_demo.Common.{
  if◌then◌else◌, ℕ, ◌+◌, ◌<◌, ◌≡◌, refl, Bool, true, false, none, some, arith,
}
use linux_programing_demo.Threads.Family.{update, total, total-update, total-const}
use linux_programing_demo.Ipc.NamedSemaphore.{
  Pc, start, show_first, try_first, post, show_second, try_second, show_last, closing, ended,
  elsewhere, failed, System, init, advance, Reach, begin, act, refuse,
}

abbrev one : Bool → ℕ
one b = if b then 1 else 0

-- The posts, and the successful tries, of a process.
abbrev pub posts : Pc → ℕ
posts (show_second c a) = 1
posts (try_second c a) = 1
posts (show_last c a b) = 1
posts (closing c a b) = 1
posts (ended a b) = 1
posts _ = 0

abbrev pub takes : Pc → ℕ
takes (post c a) = one a
takes (show_second c a) = one a
takes (try_second c a) = one a
takes (show_last c a b) = one a + one b
takes (closing c a b) = one a + one b
takes (ended a b) = one a + one b
takes _ = 0

abbrev pub uses : Pc → Bool
uses start = false
uses elsewhere = false
uses failed = false
uses _ = true

record Inv (n : ℕ) (s : System) : Type 0 where
  balance : s.value + total takes n s.pc ≡ total posts n s.pc
  made : (t : ℕ) → uses (s.pc t) ≡ true → s.exists ≡ true
  unmade : s.exists ≡ false → s.value ≡ 0

module _ (n : ℕ) (s s' : System) (t : ℕ) (lt : t < n) (inv : Inv n s) where
  taken : (p : Pc) → total takes n (update s.pc t p) + takes (s.pc t) ≡ total takes n s.pc + takes p
  taken p = total-update takes n t s.pc p lt

  posted :
      (p : Pc) → total posts n (update s.pc t p) + posts (s.pc t) ≡ total posts n s.pc + posts p
  posted p = total-update posts n t s.pc p lt

  advance-balance :
      (p : Pc)
      → s.pc t ≡ p
      → advance t p s ≡ some s'
      → s'.value + total takes n s'.pc ≡ total posts n s'.pc
  unfolding advance
  advance-balance start e h = ground (
    arith,
    inv.balance,
    inv.unmade,
    taken elsewhere,
    posted elsewhere,
    taken (show_first false),
    posted (show_first false),
    taken (show_first true),
    posted (show_first true),
  )
  advance-balance (show_first c) e h =
      ground (arith, inv.balance, taken (try_first c), posted (try_first c))
  advance-balance (try_first c) e h = ground (
    arith,
    inv.balance,
    taken (post c true),
    posted (post c true),
    taken (post c false),
    posted (post c false),
  )
  advance-balance (post c a) e h =
      ground (arith, inv.balance, taken (show_second c a), posted (show_second c a))
  advance-balance (show_second c a) e h =
      ground (arith, inv.balance, taken (try_second c a), posted (try_second c a))
  advance-balance (try_second c a) e h = ground (
    arith,
    inv.balance,
    taken (show_last c a true),
    posted (show_last c a true),
    taken (show_last c a false),
    posted (show_last c a false),
  )
  advance-balance (show_last c a b) e h =
      ground (arith, inv.balance, taken (closing c a b), posted (closing c a b))
  advance-balance (closing c a b) e h =
      ground (arith, inv.balance, taken (ended a b), posted (ended a b))
  advance-balance (ended a b) e h = cc
  advance-balance elsewhere e h = cc
  advance-balance failed e h = cc

  advance-made :
      (p : Pc) (u : ℕ)
      → s.pc t ≡ p
      → advance t p s ≡ some s'
      → uses (s'.pc u) ≡ true
      → s'.exists ≡ true
  unfolding advance
  advance-made start u e h = ground (arith, inv.made u)
  advance-made _ u e h = ground (arith, inv.made u, inv.made t)

  advance-unmade :
      (p : Pc) → s.pc t ≡ p → advance t p s ≡ some s' → s'.exists ≡ false → s'.value ≡ 0
  unfolding advance
  advance-unmade start e h = ground (arith, inv.unmade)
  advance-unmade _ e h = ground (arith, inv.unmade, inv.made t)

  advance-Inv : advance t (s.pc t) s ≡ some s' → Inv n s'
  advance-Inv h = record {
    balance = advance-balance (s.pc t) refl h;
    made = λ u. advance-made (s.pc t) u refl h;
    unmade = advance-unmade (s.pc t) refl h;
  }

  refuse-Inv : s.pc t ≡ start → Inv n (record s { pc = update s.pc t failed })
  refuse-Inv e = record {
    balance = ground (arith, inv.balance, taken failed, posted failed);
    made = λ u. ground (arith, inv.made u);
    unmade = inv.unmade;
  }

init-Inv : (n : ℕ) → Inv n init
init-Inv n = record {
  balance = omega (
    arith,
    total-const takes n 0 (λ _. start) (λ _ _. refl),
    total-const posts n 0 (λ _. start) (λ _ _. refl),
  );
  made = λ t e. cc;
  unmade = λ e. refl;
}

Reach-Inv : (n : ℕ) {s : System} → Reach n s → Inv n s
Reach-Inv n begin = init-Inv n
Reach-Inv n (act {s = s} s' t r lt h) = advance-Inv n s s' t lt (Reach-Inv n r) h
Reach-Inv n (refuse {s = s} s' t r lt e same) = rw same (refuse-Inv n s s' t lt (Reach-Inv n r) e)

abbrev pub IsLeft : Pc → Type 0
IsLeft (ended a b) = Unit
IsLeft elsewhere = Unit
IsLeft failed = Unit
IsLeft _ = ⊥

stuck-IsLeft : (s : System) (t : ℕ) (p : Pc) → advance t p s ≡ none → IsLeft p
unfolding advance
stuck-IsLeft s t start h = absurd (ground arith)
stuck-IsLeft s t (ended a b) h = tt
stuck-IsLeft s t elsewhere h = tt
stuck-IsLeft s t failed h = tt
stuck-IsLeft s t (show_first c) h = cc
stuck-IsLeft s t (try_first c) h = cc
stuck-IsLeft s t (post c a) h = cc
stuck-IsLeft s t (show_second c a) h = cc
stuck-IsLeft s t (try_second c a) h = cc
stuck-IsLeft s t (show_last c a b) h = cc
stuck-IsLeft s t (closing c a b) h = cc

-- In every run of n processes, also while they overlap: the value of the semaphore is the number of
-- posts less the number of successful tries, of all processes; and no process ever blocks: one that
-- cannot move has ended, failed at sem_open, or opened a later semaphore.
pub value_balanced :
    (n : ℕ) (s : System)
    → Reach n s
    → (s.value + total takes n s.pc ≡ total posts n s.pc)
      × ((t : ℕ) → advance t (s.pc t) s ≡ none → IsLeft (s.pc t))
value_balanced n s r = ((Reach-Inv n r).balance, λ t h. stuck-IsLeft s t (s.pc t) h)
