-- ===== src/Threads/Semaphore/LostWakeup.antt =====
-- Where threads post more often than they wait, as `semaphore_post` of thread/semaphore/sem.c allows,
-- a wake-up can be lost: only a post that finds the count 0 signals.
use linux_programing_demo.Common.{ℕ, ◌<◌, ◌≡◌, refl, ◌≢◌, none, some, List, ◌∷◌, arith}
use linux_programing_demo.Threads.Family.{update}
use linux_programing_demo.Threads.Semaphore.{
  Op, post, Pc, idle, wait_test, wait_sleep, wait_woken, wait_dec, wait_unlock, post_test,
  post_signal, post_inc, post_unlock, System, advance, act, signal, step, Reach, next,
}

module _ (n : ℕ) (program : ℕ → List Op) where
  pub goes :
      {s s' : System}
      → Reach n program s
      → (t : ℕ) (p : Pc) → t < n
      → s.pc t ≡ p
      → advance t p s ≡ some s'
      → Reach n program s'
  goes {s} {s'} r t p lt e h = next s' r (step (act t lt (rw e h)))

  pub signals :
      {s : System}
      → Reach n program s
      → (t u : ℕ) (ops ops' : List Op) → t < n
      → u < n
      → s.pc t ≡ post_signal ops
      → s.pc u ≡ wait_sleep ops'
      → Reach n program
          (record s { pc = update (update s.pc u (wait_woken ops')) t (post_inc ops) })
  signals r t u ops ops' lt ltu e e' = next _ r (step (signal t u ops ops' lt ltu e e' refl))

  -- From a state reached in which the threads `u` and `v` sleep, the count is 0, and the thread `t` holds
  -- the mutex in the first of two posts: a run goes on to a state in which both posts and the call of
  -- `u` are over, the count is 1 and the mutex free, `v` still sleeps, and no other thread has moved.
  pub second_post_lost :
      (t u v : ℕ) (f : ℕ → Pc) (ops a b : List Op)
      → t < n
      → u < n
      → u ≢ v
      → f t ≡ post_test (post ∷ ops)
      → f u ≡ wait_sleep a
      → f v ≡ wait_sleep b
      → Reach n program (record { mutex = some t; count = 0; pc = f })
      → (s : System) × Reach n program s
        × (s.mutex ≡ none)
        × (s.count ≡ 1)
        × (s.pc t ≡ idle ops)
        × (s.pc u ≡ idle a)
        × (s.pc v ≡ wait_sleep b)
        × ((w : ℕ) → w ≢ t → w ≢ u → s.pc w ≡ f w)
  unfolding advance
  second_post_lost t u v f ops a b lt ltu ne et eu ev r0 =
      let r1 = goes r0 t (post_test (post ∷ ops)) lt et refl in
      let r2 = signals r1 t u (post ∷ ops) a lt ltu (ground arith) (ground arith) in
      let r3 = goes r2 t (post_inc (post ∷ ops)) lt (ground arith) refl in
      let r4 = goes r3 t (post_unlock (post ∷ ops)) lt (ground arith) refl in
      let r5 = goes r4 t (idle (post ∷ ops)) lt (ground arith) refl in
      let r6 = goes r5 t (post_test ops) lt (ground arith) refl in
      let r7 = goes r6 t (post_inc ops) lt (ground arith) refl in
      let r8 = goes r7 t (post_unlock ops) lt (ground arith) refl in
      let r9 = goes r8 u (wait_woken a) ltu (ground arith) refl in
      let r10 = goes r9 u (wait_test a) ltu (ground arith) refl in
      let r11 = goes r10 u (wait_dec a) ltu (ground arith) refl in
      let r12 = goes r11 u (wait_unlock a) ltu (ground arith) refl in
      (_, r12, refl, refl, ground arith, ground arith, ground arith, λ w nt nu. ground arith)
