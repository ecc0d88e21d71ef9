-- ===== src/Threads/RwLock/Advance.antt =====
-- Every step of a thread keeps the invariant.
use linux_programing_demo.Common.{
  ◌==◌, ℕ, ◌+◌, ◌*◌, ◌%◌, ◌^◌, ◌<◌, ◌≡◌, refl, ◌∙◌, ◌≢◌, true, false, some, arith, ℕ_discrete,
}
use linux_programing_demo.Threads.Family.{update, total, total-update}
use linux_programing_demo.Threads.RwLock.{
  Pc, unborn, r_lock, r_unlock, r_test, r_done, w_head, w_load, w_store, w_unlock, w_exit, w_done,
  Main, creating, joining, printed, System, rdlock, wrlock, advance, is_ended,
}
use linux_programing_demo.Threads.RwLock.Invariant.{
  reads, writes, rounds, InRange, is_born, is_writer, Stands, Inv, counter-le, counter-lt,
}

module _ (max : ℕ) (fits : 2 * max < 2 ^ 63) (s s' : System) (t : ℕ) (lt : t < 4)
    (inv : Inv max s) where
  counts :
      (p : Pc)
      → total (rounds max) 4 (update s.pc t p) + rounds max (s.pc t)
        ≡ total (rounds max) 4 s.pc + rounds max p
  counts p = total-update (rounds max) 4 t s.pc p lt

  looks : (p : Pc) → total reads 4 (update s.pc t p) + reads (s.pc t) ≡ total reads 4 s.pc + reads p
  looks p = total-update reads 4 t s.pc p lt

  advance-inside :
      (p : Pc) (u : ℕ)
      → s.pc t ≡ p
      → advance max t p s ≡ some s'
      → writes (s'.pc u) ≡ true
      → s'.writer ≡ some u
  unfolding advance rdlock wrlock
  advance-inside r_lock u e h = ground (arith, inv.inside u)
  advance-inside (w_head i) u e h = ground (arith, inv.inside u)
  advance-inside _ u e h = ground (arith, inv.inside u, inv.inside t)

  advance-owned :
      (p : Pc) (u : ℕ)
      → s.pc t ≡ p
      → advance max t p s ≡ some s'
      → s'.writer ≡ some u
      → writes (s'.pc u) ≡ true
  unfolding advance rdlock wrlock
  advance-owned r_lock u e h = ground (arith, inv.owned u)
  advance-owned (w_head i) u e h = ground (arith, inv.owned u)
  advance-owned _ u e h = ground (arith, inv.owned u)

  advance-alone :
      (p : Pc) (u : ℕ)
      → s.pc t ≡ p
      → advance max t p s ≡ some s'
      → s'.writer ≡ some u
      → s'.readers ≡ 0
  unfolding advance rdlock wrlock
  advance-alone r_lock u e h = ground (arith, inv.alone u)
  advance-alone (w_head i) u e h = ground (arith, inv.alone u)
  advance-alone _ u e h = ground (arith, inv.alone u)

  advance-reading :
      (p : Pc) → s.pc t ≡ p → advance max t p s ≡ some s' → s'.readers ≡ total reads 4 s'.pc
  unfolding advance rdlock wrlock
  advance-reading r_lock e h = ground (arith, inv.reading, looks r_unlock)
  advance-reading r_unlock e h = ground (arith, inv.reading, looks r_test)
  advance-reading r_test e h = ground (arith, inv.reading, looks r_done, looks r_lock)
  advance-reading (w_head i) e h = ground (arith, inv.reading, looks (w_load i), looks w_exit)
  advance-reading (w_load i) e h = ground (arith, inv.reading, looks (w_store i s.counter))
  advance-reading (w_store i v) e h = ground (arith, inv.reading, looks (w_unlock i))
  advance-reading (w_unlock i) e h = ground (arith, inv.reading, looks (w_head (i + 1)))
  advance-reading w_exit e h = ground (arith, inv.reading, looks w_done)
  advance-reading unborn e h = cc
  advance-reading r_done e h = cc
  advance-reading w_done e h = cc

  advance-account :
      (p : Pc) → s.pc t ≡ p → advance max t p s ≡ some s' → s'.counter ≡ total (rounds max) 4 s'.pc
  unfolding advance rdlock wrlock
  advance-account r_lock e h = ground (arith, inv.account, counts r_unlock)
  advance-account r_unlock e h = ground (arith, inv.account, counts r_test)
  advance-account r_test e h = ground (arith, inv.account, counts r_done, counts r_lock)
  advance-account (w_head i) e h =
      ground (arith, inv.account, inv.range t, counts (w_load i), counts w_exit)
  advance-account (w_load i) e h = ground (arith, inv.account, counts (w_store i s.counter))
  advance-account (w_store i v) e h =
      ground (arith, inv.account, inv.range t, counter-le max s inv, fits, counts (w_unlock i))
  advance-account (w_unlock i) e h = ground (arith, inv.account, counts (w_head (i + 1)))
  advance-account w_exit e h = ground (arith, inv.account, counts w_done)
  advance-account unborn e h = cc
  advance-account r_done e h = cc
  advance-account w_done e h = cc

  advance-range :
      (p : Pc) (u : ℕ) → s.pc t ≡ p → advance max t p s ≡ some s' → InRange max s'.counter (s'.pc u)
  unfolding advance rdlock wrlock
  advance-range r_lock u e h = ground (arith, inv.range u)
  advance-range r_test u e h = ground (arith, inv.range u, counter-le max s inv, fits)
  advance-range (w_head i) u e h = ground (arith, inv.range u, inv.range t)
  advance-range (w_load i) u e h = ground (arith, inv.range u, inv.range t)
  advance-range (w_store i v) u e h =
      let c : s.counter < 2 * max =
        counter-lt max s inv t i lt (ground arith) (ground arith) (ground (arith, inv.range t)) in
      ground (arith, inv.range u, inv.range t, inv.inside u, inv.inside t, c)
  advance-range (w_unlock i) u e h = ground (arith, inv.range u, inv.range t)
  advance-range _ u e h = ground (arith, inv.range u)

  advance-role :
      (p : Pc) (u : ℕ)
      → s.pc t ≡ p
      → advance max t p s ≡ some s'
      → is_born (s'.pc u) ≡ true
      → is_writer (s'.pc u) ≡ (u % 2 == 0)
  unfolding advance rdlock wrlock
  advance-role r_lock u e h = ground (arith, inv.role u, inv.role t)
  advance-role (w_head i) u e h = ground (arith, inv.role u, inv.role t)
  advance-role _ u e h = ground (arith, inv.role u, inv.role t)

  -- A thread that moves is created and has not ended, and stays so created.
  advance-goes :
      (p : Pc)
      → s.pc t ≡ p
      → advance max t p s ≡ some s'
      → (is_born p ≡ true)
        × (is_ended p ≡ false)
        × (is_born (s'.pc t) ≡ true)
        × ((u : ℕ) → u ≢ t → s'.pc u ≡ s.pc u)
        × (s'.main ≡ s.main)
  unfolding advance rdlock wrlock
  advance-goes r_lock e h =
      (ground arith, ground arith, ground arith, λ u ne. ground (arith, ne), ground arith)
  advance-goes (w_head i) e h =
      (ground arith, ground arith, ground arith, λ u ne. ground (arith, ne), ground arith)
  advance-goes _ e h =
      (ground arith, ground arith, ground arith, λ u ne. ground (arith, ne), ground arith)

  goes-Stands :
      (m : Main)
      → advance max t (s.pc t) s ≡ some s'
      → Stands s.counter s.pc m
      → Stands s'.counter s'.pc m
  goes-Stands (creating k) h st =
      let g = advance-goes (s.pc t) refl h in
      (
        st.0,
        λ u less. elim (ℕ_discrete u t) [
          | yes same ↦ rw same g.2
          | no ne ↦ rw (g.3 u ne) (st.1 u less)
        ],
        λ u ge. elim (ℕ_discrete u t) [
          | yes same ↦ absurd (ground (arith, st.2 t, g.0))
          | no ne ↦ rw (g.3 u ne) (st.2 u ge)
        ],
      )
  goes-Stands (joining k) h st =
      let g = advance-goes (s.pc t) refl h in
      (
        st.0,
        λ u less. elim (ℕ_discrete u t) [
          | yes same ↦ rw same g.2
          | no ne ↦ rw (g.3 u ne) (st.1 u less)
        ],
        λ u less. elim (ℕ_discrete u t) [
          | yes same ↦ absurd (ground (arith, st.2 t, g.1))
          | no ne ↦ rw (g.3 u ne) (st.2 u less)
        ],
      )
  goes-Stands (printed v) h st =
      let g = advance-goes (s.pc t) refl h in absurd (ground (arith, st.0 t lt, g.1))

  pub advance-Inv : advance max t (s.pc t) s ≡ some s' → Inv max s'
  advance-Inv h = record {
    inside = λ u. advance-inside (s.pc t) u refl h;
    owned = λ u. advance-owned (s.pc t) u refl h;
    alone = λ u. advance-alone (s.pc t) u refl h;
    reading = advance-reading (s.pc t) refl h;
    account = advance-account (s.pc t) refl h;
    range = λ u. advance-range (s.pc t) u refl h;
    role = λ u. advance-role (s.pc t) u refl h;
    beyond = λ u ge. (advance-goes (s.pc t) refl h).3 u (omega (arith, ge, lt)) ∙ inv.beyond u ge;
    stands = rw (advance-goes (s.pc t) refl h).4 (goes-Stands s.main h inv.stands);
  }
