-- ===== src/Threads/RwLock/Reached.antt =====
-- The steps of `main`, and all runs.
use linux_programing_demo.Common.{
  ltb, Bool-cases, ℕ, ◌+◌, ◌*◌, ◌^◌, ◌<◌, ◌≡◌, refl, subst, inl, inr, true, some, arith,
}
use linux_programing_demo.Threads.Family.{update, total, total-update}
use linux_programing_demo.Threads.RwLock.{
  unborn, Main, creating, joining, printed, System, init, routine, is_ended, master, Reach, begin,
  act, lead,
}
use linux_programing_demo.Threads.RwLock.Invariant.{reads, rounds, Stands, Inv}
use linux_programing_demo.Threads.RwLock.Advance.{advance-Inv}

-- `main` creates thread `k`.
create-Inv :
    (max k : ℕ) (s : System)
    → k < 4
    → s.main ≡ creating k
    → Inv max s
    → Inv max (record s { pc = update s.pc k (routine k); main = creating (k + 1) })
unfolding routine
create-Inv max k s lt e inv =
    let st : Stands s.counter s.pc (creating k) = rw e at inv.stands in
    let u : s.pc k ≡ unborn = st.2 k (omega arith) in
    record {
      inside = λ t. ground (arith, inv.inside t);
      owned = λ t. ground (arith, inv.owned t);
      alone = λ t. inv.alone t;
      reading = ground (arith, inv.reading, total-update reads 4 k s.pc (routine k) lt);
      account = ground (arith, inv.account, total-update (rounds max) 4 k s.pc (routine k) lt);
      range = λ t. ground (arith, inv.range t);
      role = λ t. ground (arith, inv.role t);
      beyond = λ t ge. ground (arith, inv.beyond t);
      stands =
          (omega (arith, lt), λ t less. ground (arith, st.1 t), λ t ge. ground (arith, st.2 t));
    }

-- Nothing else of `main` touches what the threads share.
turn-Inv :
    (max : ℕ) (s : System) (m : Main)
    → Stands s.counter s.pc m
    → Inv max s
    → Inv max (record s { main = m })
turn-Inv max s m st inv = record {
  inside = inv.inside;
  owned = inv.owned;
  alone = inv.alone;
  reading = inv.reading;
  account = inv.account;
  range = inv.range;
  role = inv.role;
  beyond = inv.beyond;
  stands = st;
}

init-Inv : (max : ℕ) → Inv max init
unfolding total
init-Inv max = record {
  inside = λ t e. cc;
  owned = λ t e. cc;
  alone = λ t e. cc;
  reading = omega arith;
  account = omega arith;
  range = λ t. tt;
  role = λ t e. cc;
  beyond = λ t ge. refl;
  stands = (omega arith, λ t less. absurd (omega (arith, less)), λ t ge. refl);
}

master-Inv :
    (max : ℕ) (s s' : System) (m : Main)
    → s.main ≡ m
    → Inv max s
    → master m s ≡ some s'
    → Inv max s'
unfolding master
master-Inv max s s' (creating k) e inv h =
    let st : Stands s.counter s.pc (creating k) = rw e at inv.stands in
    elim (Bool-cases (ltb k 4)) [
      | inl more ↦
          let same : record s { pc = update s.pc k (routine k); main = creating (k + 1) } ≡ s' =
            ground arith in
          subst (Inv max) same (create-Inv max k s (ground arith) e inv)
      | inr last ↦
          let same : record s { main = joining 0 } ≡ s' = ground arith in
          subst (Inv max) same (
            turn-Inv max s (joining 0)
              (omega arith, λ t less. st.1 t (ground arith), λ t less. absurd (omega (arith, less)))
              inv)
    ]
master-Inv max s s' (joining k) e inv h =
    let st : Stands s.counter s.pc (joining k) = rw e at inv.stands in
    elim (Bool-cases (ltb k 4)) [
      | inl more ↦
          let ended : is_ended (s.pc k) ≡ true = ground arith in
          let same : record s { main = joining (k + 1) } ≡ s' = ground arith in
          subst (Inv max) same (
            turn-Inv max s (joining (k + 1)) (ground arith, st.1, λ t less. ground (arith, st.2 t))
              inv)
      | inr last ↦
          let same : record s { main = printed s.counter } ≡ s' = ground arith in
          subst (Inv max) same
            (turn-Inv max s (printed s.counter) (λ t less. st.2 t (ground arith), refl) inv)
    ]
master-Inv max s s' (printed v) e inv h = cc

pub Reach-Inv : (max : ℕ) {s : System} → 2 * max < 2 ^ 63 → Reach max s → Inv max s
Reach-Inv max fits begin = init-Inv max
Reach-Inv max fits (act {s = s} s' t r lt h) =
    advance-Inv max fits s s' t lt (Reach-Inv max fits r) h
Reach-Inv max fits (lead {s = s} s' r h) = master-Inv max s s' s.main refl (Reach-Inv max fits r) h
