-- ===== src/Threads/Semaphore/Binary/Advance.antt =====
-- A step of one thread, other than a signal, keeps the invariant of the binary semaphore.
use linux_programing_demo.Common.{
  ◌==◌, if◌then◌else◌, ℕ, ◌+◌, ◌<◌, ◌≡◌, refl, sym, ap, ◌≢◌, Bool, true, false, some, [], ◌∷◌,
  arith, ℕ_discrete,
}
use linux_programing_demo.Threads.Family.{update, total, total-update}
use linux_programing_demo.Threads.Semaphore.{
  wait, post, Pc, idle, wait_test, wait_sleep, wait_woken, wait_dec, wait_unlock, post_test,
  post_signal, post_inc, post_unlock, System, advance, Sleeps,
}
use linux_programing_demo.Threads.Semaphore.Binary.{
  tokens, owns_mutex, Follows, alert, CountFits, Incrementing, Inv,
}

-- Where a step takes a thread that finds the count `c`.
abbrev target : Pc → ℕ → Pc
target (idle []) c = idle []
target (idle (wait ∷ ops)) c = wait_test ops
target (idle (post ∷ ops)) c = post_test ops
target (wait_test ops) c = if c == 0 then wait_sleep ops else wait_dec ops
target (wait_sleep ops) c = wait_sleep ops
target (wait_woken ops) c = wait_test ops
target (wait_dec ops) c = wait_unlock ops
target (wait_unlock ops) c = idle ops
target (post_test ops) c = if c == 0 then post_signal ops else post_inc ops
target (post_signal ops) c = post_signal ops
target (post_inc ops) c = post_unlock ops
target (post_unlock ops) c = idle ops

if_Follows : (b : Bool) (p q : Pc) → Follows p → Follows q → Follows (if b then p else q)
if_Follows true p q x y = x
if_Follows false p q x y = y

target-Follows : (p : Pc) (c : ℕ) → Follows p → Follows (target p c)
target-Follows (idle []) c f = tt
target-Follows (idle (wait ∷ [])) c f = absurd f
target-Follows (idle (wait ∷ wait ∷ ops)) c f = absurd f
target-Follows (idle (wait ∷ post ∷ ops)) c f = f
target-Follows (idle (post ∷ ops)) c f = f
target-Follows (wait_test ops) c f = if_Follows (c == 0) (wait_sleep ops) (wait_dec ops) f f
target-Follows (wait_sleep ops) c f = f
target-Follows (wait_woken ops) c f = f
target-Follows (wait_dec ops) c f = f
target-Follows (wait_unlock []) c f = absurd f
target-Follows (wait_unlock (wait ∷ ops)) c f = absurd f
target-Follows (wait_unlock (post ∷ ops)) c f = f
target-Follows (post_test ops) c f = if_Follows (c == 0) (post_signal ops) (post_inc ops) f f
target-Follows (post_signal ops) c f = f
target-Follows (post_inc ops) c f = f
target-Follows (post_unlock []) c f = tt
target-Follows (post_unlock (wait ∷ ops)) c f = f
target-Follows (post_unlock (post ∷ ops)) c f = absurd f

advance-pc :
    (t : ℕ) (p : Pc) (s s' : System)
    → advance t p s ≡ some s'
    → s'.pc ≡ update s.pc t (target p s.count)
unfolding advance
advance-pc t (idle []) s s' h = cc
advance-pc t (idle (wait ∷ ops)) s s' h = ground arith
advance-pc t (idle (post ∷ ops)) s s' h = ground arith
advance-pc t _ s s' h = ground arith

module _ (n : ℕ) (s s' : System) (inv : Inv n s) (t : ℕ) (lt : t < n) where
  advance-owner :
      (p : Pc)
      → s.pc t ≡ p
      → advance t p s ≡ some s'
      → (u : ℕ) → owns_mutex (s'.pc u) ≡ true
      → s'.mutex ≡ some u
  unfolding advance
  advance-owner (idle []) e h u c = cc
  advance-owner (idle (wait ∷ ops)) e h u c = ground (arith, inv.owner u, inv.owner t)
  advance-owner (idle (post ∷ ops)) e h u c = ground (arith, inv.owner u, inv.owner t)
  advance-owner _ e h u c = ground (arith, inv.owner u, inv.owner t)

  advance-owned :
      (p : Pc)
      → s.pc t ≡ p
      → advance t p s ≡ some s'
      → (u : ℕ) → s'.mutex ≡ some u
      → (owns_mutex (s'.pc u) ≡ true) × (u < n)
  unfolding advance
  advance-owned (idle []) e h u c = cc
  advance-owned (idle (wait ∷ ops)) e h u c = ground (arith, inv.owned u, inv.owner t)
  advance-owned (idle (post ∷ ops)) e h u c = ground (arith, inv.owned u, inv.owner t)
  advance-owned _ e h u c = ground (arith, inv.owned u, inv.owner t)

  token_update :
      (p : Pc) → total tokens n (update s.pc t p) + tokens (s.pc t) ≡ total tokens n s.pc + tokens p
  token_update p = total-update tokens n t s.pc p lt

  advance-others : advance t (s.pc t) s ≡ some s' → (u : ℕ) → t ≢ u → s'.pc u ≡ s.pc u
  advance-others h u ne = rw (advance-pc t (s.pc t) s s' h) (ground arith)

  advance_self : advance t (s.pc t) s ≡ some s' → s'.pc t ≡ target (s.pc t) s.count
  advance_self h = rw (advance-pc t (s.pc t) s s' h) (ground arith)

  advance-Follows : advance t (s.pc t) s ≡ some s' → (u : ℕ) → Follows (s'.pc u)
  advance-Follows h u = elim (ℕ_discrete t u) [
    | yes same ↦ rw (← same) (rw (advance_self h) (target-Follows (s.pc t) s.count (inv.follows t)))
    | no other ↦ rw (advance-others h u other) (inv.follows u)
  ]

  advance-fits :
      (p : Pc) → s.pc t ≡ p → advance t p s ≡ some s' → (u : ℕ) → CountFits s'.count (s'.pc u)
  unfolding advance
  advance-fits (idle []) e h u = cc
  advance-fits (idle (wait ∷ ops)) e h u = ground (arith, inv.fits u)
  advance-fits (idle (post ∷ ops)) e h u = ground (arith, inv.fits u)
  advance-fits _ e h u = ground (arith, inv.fits u, inv.owner u, inv.owner t)

  advance-token :
      (p : Pc) → s.pc t ≡ p → advance t p s ≡ some s' → s'.count + total tokens n s'.pc ≡ 1
  unfolding advance
  advance-token (idle []) e h = cc
  advance-token (idle (wait ∷ ops)) e h = ground (arith, inv.token, token_update (wait_test ops))
  advance-token (idle (post ∷ ops)) e h = ground (arith, inv.token, token_update (post_test ops))
  advance-token (wait_test ops) e h =
      ground (arith, inv.token, token_update (wait_sleep ops), token_update (wait_dec ops))
  advance-token (wait_sleep ops) e h = cc
  advance-token (wait_woken ops) e h = ground (arith, inv.token, token_update (wait_test ops))
  advance-token (wait_dec ops) e h =
      ground (arith, inv.token, token_update (wait_unlock ops), inv.fits t)
  advance-token (wait_unlock []) e h = absurd (rw e at (inv.follows t))
  advance-token (wait_unlock (wait ∷ ops)) e h = absurd (rw e at (inv.follows t))
  advance-token (wait_unlock (post ∷ ops)) e h =
      ground (arith, inv.token, token_update (idle (post ∷ ops)))
  advance-token (post_test ops) e h =
      ground (arith, inv.token, token_update (post_signal ops), token_update (post_inc ops))
  advance-token (post_signal ops) e h = cc
  advance-token (post_inc ops) e h = ground (arith, inv.token, token_update (post_unlock ops))
  advance-token (post_unlock []) e h = ground (arith, inv.token, token_update (idle []))
  advance-token (post_unlock (wait ∷ ops)) e h =
      ground (arith, inv.token, token_update (idle (wait ∷ ops)))
  advance-token (post_unlock (post ∷ ops)) e h = absurd (rw e at (inv.follows t))

  count_grows :
      (p : Pc) → s.pc t ≡ p → advance t p s ≡ some s' → s.count ≡ 0 → s'.count ≢ 0 → Incrementing p
  unfolding advance
  count_grows (post_inc ops) e h z nz = tt
  count_grows (idle []) e h z nz = cc
  count_grows (idle (wait ∷ ops)) e h z nz = absurd (ground arith)
  count_grows (idle (post ∷ ops)) e h z nz = absurd (ground arith)
  count_grows (wait_dec ops) e h z nz = absurd (ground (arith, inv.fits t))
  count_grows _ e h z nz = absurd (ground arith)

  alert_stays :
      (p : Pc)
      → s.pc t ≡ p
      → advance t p s ≡ some s'
      → s.count ≢ 0
      → s'.count ≢ 0
      → alert p ≡ true
      → alert (target p s.count) ≡ true
  unfolding advance
  alert_stays (wait_test ops) e h nz nz' a = ground arith
  alert_stays (wait_woken ops) e h nz nz' a = refl
  alert_stays (wait_dec ops) e h nz nz' a =
      absurd (ground (arith, inv.token, token_update (wait_unlock ops)))
  alert_stays _ e h nz nz' a = absurd (cc)

  Sleeps-before :
      (p : Pc) → s.pc t ≡ p → advance t p s ≡ some s' → Sleeps (target p s.count) → s'.count ≡ 0
  unfolding advance
  Sleeps-before (wait_test ops) e h z = ground arith
  Sleeps-before (wait_sleep ops) e h z = cc
  Sleeps-before (post_test ops) e h z = absurd (ground arith)
  Sleeps-before (idle []) e h z = absurd z
  Sleeps-before (idle (wait ∷ ops)) e h z = absurd z
  Sleeps-before (idle (post ∷ ops)) e h z = absurd z
  Sleeps-before _ e h z = absurd z

  excluded :
      (p : Pc) → s.pc t ≡ p → (o : ℕ) → s.mutex ≡ some o → o ≢ t → advance t p s ≡ some s' → ⊥
  unfolding advance
  excluded (idle []) e o m ne h = cc
  excluded (idle (wait ∷ ops)) e o m ne h = ground arith
  excluded (idle (post ∷ ops)) e o m ne h = ground arith
  excluded _ e o m ne h = ground (arith, inv.owner t)

  -- A thread that was alert and is another one, or stays alert, still is.
  keep_alert :
      advance t (s.pc t) s ≡ some s'
      → s.count ≢ 0
      → s'.count ≢ 0
      → (v : ℕ) → alert (s.pc v) ≡ true
      → alert (s'.pc v) ≡ true
  keep_alert h nz nz' v a = elim (ℕ_discrete t v) [
    | yes same ↦ rw (← same) (rw (advance_self h) (alert_stays (s.pc t) refl h nz nz' (rw same a)))
    | no other ↦ rw (advance-others h v other) a
  ]

  not_alert : (p : Pc) → Incrementing p → alert p ≡ false
  not_alert (post_inc ops) i = refl
  not_alert (idle ops) i = absurd i
  not_alert _ i = absurd i

  advance-watched :
      advance t (s.pc t) s ≡ some s'
      → (u : ℕ) → u < n
      → Sleeps (s'.pc u)
      → s'.count ≢ 0
      → (v : ℕ) × (v < n) × (alert (s'.pc v) ≡ true)
  advance-watched h u ltu z nz' = elim (ℕ_discrete t u) [
    | yes same ↦
        absurd (nz' (Sleeps-before (s.pc t) refl h (rw (advance_self h) at (rw (← same) at z))))
    | no other ↦ elim (ℕ_discrete s.count 0) [
      | yes zero_before ↦
          let i : Incrementing (s.pc t) = count_grows (s.pc t) refl h zero_before nz' in
          let (v, ltv, a) = inv.promised t u ltu i (rw (advance-others h u other) at z) in
          (
            v,
            ltv,
            rw (advance-others h v (λ e. cc (not_alert (s.pc t) i, ap (λ w. alert (s.pc w)) e, a)))
                a,
          )
      | no nz ↦
          let (v, ltv, a) = inv.watched u ltu (rw (advance-others h u other) at z) nz in
          (v, ltv, keep_alert h nz nz' v a)
    ]
  ]

  becomes-Incrementing :
      (p : Pc) → s.pc t ≡ p → Incrementing (target p s.count) → advance t p s ≡ some s' → ⊥
  unfolding advance
  becomes-Incrementing (post_test ops) e i h =
      ground (arith, inv.token, token_update (post_unlock ops))
  becomes-Incrementing (idle []) e i h = i
  becomes-Incrementing (idle (wait ∷ ops)) e i h = i
  becomes-Incrementing (idle (post ∷ ops)) e i h = i
  becomes-Incrementing (wait_test ops) e i h = ground arith
  becomes-Incrementing (post_signal ops) e i h = i
  becomes-Incrementing _ e i h = i

  Incrementing-owns : (p : Pc) → Incrementing p → owns_mutex p ≡ true
  Incrementing-owns (post_inc ops) i = refl
  Incrementing-owns (idle ops) i = absurd i
  Incrementing-owns _ i = absurd i

  advance-promised :
      advance t (s.pc t) s ≡ some s'
      → (o u : ℕ) → u < n
      → Incrementing (s'.pc o)
      → Sleeps (s'.pc u)
      → (v : ℕ) × (v < n) × (alert (s'.pc v) ≡ true)
  advance-promised h o u ltu i z = elim (ℕ_discrete t o) [
    | yes same ↦
        absurd (becomes-Incrementing (s.pc t) refl (rw (advance_self h) at (rw (← same) at i)) h)
    | no other ↦ absurd (
        excluded (s.pc t) refl o
          (inv.owner o (Incrementing-owns (s.pc o) (rw (advance-others h o other) at i)))
          (λ e. other (sym e)) h)
  ]

  pub advance-Inv : advance t (s.pc t) s ≡ some s' → Inv n s'
  advance-Inv h = record {
    owner = advance-owner (s.pc t) refl h;
    owned = advance-owned (s.pc t) refl h;
    token = advance-token (s.pc t) refl h;
    follows = advance-Follows h;
    fits = advance-fits (s.pc t) refl h;
    watched = advance-watched h;
    promised = advance-promised h;
  }
