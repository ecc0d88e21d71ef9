-- ===== src/Threads/Semaphore/Binary/Signals.antt =====
-- A signal and a spurious wake-up keep the invariant of the binary semaphore.
use linux_programing_demo.Common.{ℕ, ◌<◌, ◌≡◌, List, arith}
use linux_programing_demo.Threads.Family.{update, total, total-update}
use linux_programing_demo.Threads.Semaphore.{
  Op, wait_sleep, wait_woken, post_signal, post_inc, System, Sleeps,
}
use linux_programing_demo.Threads.Semaphore.Binary.{tokens, Inv}

module _ (n : ℕ) (s : System) (inv : Inv n s) where
  signal_tokens :
      (t u : ℕ) (ops ops' : List Op)
      → t < n
      → u < n
      → s.pc t ≡ post_signal ops
      → s.pc u ≡ wait_sleep ops'
      → total tokens n (update (update s.pc u (wait_woken ops')) t (post_inc ops))
        ≡ total tokens n s.pc
  signal_tokens t u ops ops' lt ltu e e' = ground (
    arith,
    total-update tokens n t (update s.pc u (wait_woken ops')) (post_inc ops) lt,
    total-update tokens n u s.pc (wait_woken ops') ltu,
  )

  pub signal-Inv :
      (t u : ℕ) (ops ops' : List Op)
      → t < n
      → u < n
      → s.pc t ≡ post_signal ops
      → s.pc u ≡ wait_sleep ops'
      → Inv n (record s { pc = update (update s.pc u (wait_woken ops')) t (post_inc ops) })
  signal-Inv t u ops ops' lt ltu e e' = record {
    owner = λ v c. ground (arith, inv.owner v, inv.owner t);
    owned = λ v c. ground (arith, inv.owned v, inv.owner t);
    token = rw (signal_tokens t u ops ops' lt ltu e e') inv.token;
    follows = λ v. ground (arith, inv.follows v, inv.follows t, inv.follows u);
    fits = λ v. ground (arith, inv.fits v);
    watched = λ v ltv z nz. (u, ltu, ground arith);
    promised = λ o v ltv i z. (u, ltu, ground arith);
  }

  pub signal_nobody-Inv :
      (t : ℕ) (ops : List Op)
      → t < n
      → s.pc t ≡ post_signal ops
      → ((u : ℕ) → u < n → ¬ (Sleeps (s.pc u)))
      → Inv n (record s { pc = update s.pc t (post_inc ops) })
  signal_nobody-Inv t ops lt e nobody = record {
    owner = λ v c. ground (arith, inv.owner v, inv.owner t);
    owned = λ v c. ground (arith, inv.owned v, inv.owner t);
    token = ground (arith, inv.token, total-update tokens n t s.pc (post_inc ops) lt);
    follows = λ v. ground (arith, inv.follows v, inv.follows t);
    fits = λ v. ground (arith, inv.fits v);
    watched = λ v ltv z nz. absurd (nobody v ltv (ground arith));
    promised = λ o v ltv i z. absurd (nobody v ltv (ground arith));
  }

  pub spurious-Inv :
      (u : ℕ) (ops : List Op)
      → u < n
      → s.pc u ≡ wait_sleep ops
      → Inv n (record s { pc = update s.pc u (wait_woken ops) })
  spurious-Inv u ops lt e = record {
    owner = λ v c. ground (arith, inv.owner v);
    owned = λ v c. ground (arith, inv.owned v);
    token = ground (arith, inv.token, total-update tokens n u s.pc (wait_woken ops) lt);
    follows = λ v. ground (arith, inv.follows v, inv.follows u);
    fits = λ v. ground (arith, inv.fits v);
    watched = λ v ltv z nz. (u, lt, ground arith);
    promised = λ o v ltv i z. (u, lt, ground arith);
  }
