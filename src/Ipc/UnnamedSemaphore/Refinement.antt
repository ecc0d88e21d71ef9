-- ===== src/Ipc/UnnamedSemaphore/Refinement.antt =====
-- The processes of unnamed.c count as the threads of Threads/LockedCounter.antt do, if none of them is
-- too early.
use linux_programing_demo.Common.{
  ltb, ◌==◌, Bool-cases, Option-cases, ℕ, zero, suc, ◌+◌, ◌-◌, ◌*◌, ◌%◌, ◌^◌, ◌<◌, ◌≡◌, refl, sym,
  ap, subst, ◌∙◌, fun_ext, ◌≢◌, ◌⊎◌, inl, inr, true, false, Option, none, some, arith,
}
use linux_programing_demo.Threads.Family.{update}
use linux_programing_demo.Threads.LockedCounter
use linux_programing_demo.Threads.LockedCounter.Invariant
use linux_programing_demo.Threads.Family.{total-const}
use linux_programing_demo.Ipc.UnnamedSemaphore.{semaphore, sem_wait, sem_post}
use linux_programing_demo.Ipc.UnnamedSemaphore.Startup.{
  Pc, start, truncating, mapping, initialising, opened, head, locked, loaded, stored, printed,
  ended, elsewhere, failed, killed, undefined, System, init, go, wait_at, advance, may_fail, Reach,
  begin, act, refuse,
}
use linux_programing_demo.Ipc.UnnamedSemaphore.Orderly.{place, view, in_loop, Inv, Reach-Inv}

abbrev Loop : ℕ → Type 0
Loop max = LockedCounter.System semaphore max (2 ^ 32)

-- A step of a process is no step of the loop, or the step of its thread.
abbrev Sim : ℕ → System → ℕ → Option System → Type 0
Sim max s t none = Unit
Sim max s t (some s') =
    (view max s' ≡ view max s)
    ⊎ (LockedCounter.step semaphore max (2 ^ 32) t (view max s) ≡ some (view max s'))

abbrev placed : ℕ → (ℕ → Pc) → ℕ → LockedCounter.Pc
placed max f u = place max (f u)

placed-update :
    (max : ℕ) (f : ℕ → Pc) (t : ℕ) (p : Pc)
    → update (placed max f) t (place max p) ≡ placed max (update f t p)
placed-update max f t p = fun_ext (λ u. ground arith)

placed_stays :
    (max : ℕ) (f : ℕ → Pc) (t : ℕ) (p : Pc)
    → place max p ≡ place max (f t)
    → placed max (update f t p) ≡ placed max f
placed_stays max f t p e = fun_ext (λ u. ground arith)

sem_wait-above : (t v : ℕ) → (v == 0) ≡ false → sem_wait t v ≡ LockedCounter.granted (v - 1)
unfolding sem_wait
sem_wait-above t zero e = cc
sem_wait-above t (suc v) e = ap LockedCounter.granted (omega arith)

module _ (max : ℕ) (s : System) (t : ℕ) (inv : Inv max s) where
  abbrev with_pc : (ℕ → LockedCounter.Pc) → Loop max
  with_pc f = record (view max s) { pc = f }

  stays : (p : Pc) → place max p ≡ place max (s.pc t) → Sim max s t (go t p s)
  unfolding view
  stays p e = inl (ap with_pc (placed_stays max s.pc t p e))

  ready_in_loop : (p : Pc) → s.pc t ≡ p → in_loop p ≡ true → (s.ready ≡ true) × (s.sized ≡ true)
  ready_in_loop p e l = let r : s.ready ≡ true = inv.settled t (rw e l) in (r, inv.sized_all r)

  -- `sem_wait` at the head of the loop, while there are rounds to make.
  wait_at-Sim : (i : ℕ) → s.pc t ≡ head i → ltb i max ≡ true → Sim max s t (wait_at t i s)
  unfolding wait_at view LockedCounter.step LockedCounter.advance semaphore
  wait_at-Sim i e more =
      let (r, z) = ready_in_loop (head i) e refl in
      elim (Bool-cases (s.value == 0)) [
        | inl none_left ↦ rw (z, r, none_left) tt
        | inr some_left ↦
            rw (z, r, some_left)
              (inr (
                rw (e, more, sem_wait-above t s.value some_left)
                  (ap (λ f. some (record { lock = s.value - 1; counter = s.number; pc = f }))
                    (placed-update max s.pc t (locked i)))))
      ]

  advance-Sim : (p : Pc) → s.pc t ≡ p → Sim max s t (advance max t p s)
  unfolding advance view LockedCounter.step LockedCounter.advance semaphore sem_wait sem_post
  advance-Sim start e = elim (Bool-cases s.unlinked) [
    | inl gone ↦ rw gone (stays elsewhere (rw e refl))
    | inr there ↦ elim (Option-cases s.creator) [
      | inl nobody ↦
          rw (there, nobody) (inl (ap with_pc (placed_stays max s.pc t truncating (rw e refl))))
      | inr (c, made) ↦ rw (there, made) (stays opened (rw e refl))
    ]
  ]
  advance-Sim truncating e = inl (ap with_pc (placed_stays max s.pc t mapping (rw e refl)))
  advance-Sim mapping e = stays initialising (rw e refl)
  advance-Sim initialising e =
      let raw : s.ready ≡ false = ground (arith, inv.once t) in
      inl (
        rw raw (
          ap (λ f. record (view max s) { lock = 1; pc = f })
            (placed_stays max s.pc t (head 0) (rw e refl))))
  advance-Sim opened e = stays (head 0) (rw e refl)
  advance-Sim (head i) e = elim (Bool-cases (ltb i max)) [
    | inl more ↦ rw more (wait_at-Sim i e more)
    | inr last ↦ rw last (stays (printed s.number) (ground (arith, inv.bounded t)))
  ]
  advance-Sim (locked i) e =
      inr (rw e (ap (λ f. some (with_pc f)) (placed-update max s.pc t (loaded i s.number))))
  advance-Sim (loaded i v) e = inr (
      rw e (
        ap (λ f. some (record (view max s) { counter = (v + 1) % 2 ^ 32; pc = f }))
          (placed-update max s.pc t (stored i))))
  advance-Sim (stored i) e =
      let (r, z) = ready_in_loop (stored i) e refl in
      inr (
        rw (e, r)
          (ap (λ f. some (record (view max s) { lock = s.value + 1; pc = f }))
            (placed-update max s.pc t (head (i + 1)))))
  advance-Sim (printed v) e = inl (ap with_pc (placed_stays max s.pc t ended (rw e refl)))
  advance-Sim _ e = tt

-- A run of the loop, of some length, to the view of a state.
abbrev pub LoopRun : ℕ → ℕ → System → Type 0
LoopRun max n s = (k : ℕ) × LockedCounter.Reach semaphore max (2 ^ 32) n k (view max s)

follow :
    (max n : ℕ) (s s' : System) (t : ℕ)
    → t < n
    → LoopRun max n s
    → Sim max s t (some s')
    → LoopRun max n s'
follow max n s s' t lt (k, r) (inl same) =
    (k, subst (LockedCounter.Reach semaphore max (2 ^ 32) n k) (sym same) r)
follow max n s s' t lt (k, r) (inr moves) = (suc k, LockedCounter.next (view max s') t r lt moves)

init-LoopRun : (max n : ℕ) → LoopRun max n init
unfolding view LockedCounter.init semaphore
init-LoopRun max n = (0, LockedCounter.start)

place_fails : (max : ℕ) (p : Pc) → may_fail p ≡ true → place max failed ≡ place max p
place_fails max p e = ground arith

Reach-LoopRun : (max n : ℕ) {s : System} → Reach max n true s → LoopRun max n s
Reach-LoopRun max n begin = init-LoopRun max n
Reach-LoopRun max n (act {s = s} s' t r lt o h) =
    follow max n s s' t lt (Reach-LoopRun max n r)
      (subst (Sim max s t) h (advance-Sim max s t (Reach-Inv max n r) (s.pc t) refl))
Reach-LoopRun max n (refuse {s = s} s' t r lt e same) =
    follow max n s s' t lt (Reach-LoopRun max n r) (
      subst (λ q. Sim max s t (some q)) (sym same)
        (stays max s t (Reach-Inv max n r) failed (place_fails max (s.pc t) e)))

-- When no process maps the object of another before its semaphore is initialised: every run of n
-- processes, from `shm_open` on, is seen from the loop a run of n threads under a lock; and no process
-- uses memory without a size, or a semaphore that is not initialised.
pub orderly_refines :
    (max n : ℕ) (s : System)
    → Reach max n true s
    → LoopRun max n s × ((t : ℕ) → s.pc t ≢ killed) × ((t : ℕ) → s.pc t ≢ undefined)
orderly_refines max n s r =
    let inv = Reach-Inv max n r in
    (Reach-LoopRun max n r, λ t e. ground (arith, inv.well t), λ t e. ground (arith, inv.well t))

-- In such a run, while n * max is below 2 ^ 31: two processes are never between `sem_wait` and `sem_post`
-- together, and when all n have made their rounds the number is n * max.
pub orderly_number :
    (max n : ℕ) (s : System)
    → n * max < 2 ^ 31
    → Reach max n true s
    → ((t u : ℕ)
        → Invariant.critical (place max (s.pc t)) ≡ true
        → Invariant.critical (place max (s.pc u)) ≡ true
        → t ≡ u)
      × (((t : ℕ) → t < n → place max (s.pc t) ≡ LockedCounter.head max) → s.number ≡ n * max)
unfolding view
orderly_number max n s fits r =
    let (k, loop) = Reach-LoopRun max n r in
    let (o, inv) = Invariant.Reach-Inv semaphore max (2 ^ 32) n k (omega (arith, fits)) loop in
    (
      λ t u a b. ground (arith, inv.inside t a, inv.inside u b),
      λ all.
          inv.count
          ∙ total-const Invariant.done n max (placed max s.pc)
              (λ t lt. ap Invariant.done (all t lt)),
    )
