-- ===== src/Timer/Posix/Overlap.antt =====
-- Callbacks that overlap lose counts.
use linux_programing_demo.Common.{ℕ, zero, suc, ◌≤◌, ◌<◌, ◌≡◌, refl, true, some, ◌++◌, arith}
use linux_programing_demo.Threads.Family.{update}
use linux_programing_demo.Timer.Posix.{
  Info, report, Pc, unfired, sleeping, loading, storing, finished, arming, testing, System, init,
  is_running, callback, master, Reach, begin, notify, lead,
}

-- A run to a state where the callbacks below `k` are at `p` and the others have not started.
record Lined (max n k : ℕ) (p : Pc) (count : ℕ) : Type 0 where
  state : System
  reached : Reach max n state
  is_armed : state.armed ≡ true
  in_loop : state.main ≡ testing
  amount : state.callback_count ≡ count
  below : (t : ℕ) → t < k → state.pc t ≡ p
  above : (t : ℕ) → k ≤ t → state.pc t ≡ unfired

-- A run to a state where the callbacks below `j` have stored, and the others, below `n`, have loaded 0.
record Stored (max n j : ℕ) : Type 0 where
  state : System
  reached : Reach max n state
  in_loop : state.main ≡ testing
  amount : 0 < j → state.callback_count ≡ 1
  below : (t : ℕ) → t < j → state.pc t ≡ finished
  above : (t : ℕ) → j ≤ t → t < n → state.pc t ≡ storing 0

update-at : (f : ℕ → Pc) (k : ℕ) (p : Pc) → update f k p k ≡ p
update-at f k p = ground arith

module _ (max n : ℕ) (info : Info) where
  -- The timer is set, and `main` is in its loop.
  ready : Lined max n 0 (storing 0) 0
  unfolding master
  ready =
      let r1 : Reach max n (record init { main = arming }) = lead _ true begin refl in
      let r2 : Reach max n (record init { armed = true; main = testing }) = lead _ true r1 refl in
      record {
        state = record init { armed = true; main = testing };
        reached = r2;
        is_armed = refl;
        in_loop = refl;
        amount = refl;
        below = λ t lt. absurd (omega (arith, lt));
        above = λ t le. refl;
      }

  -- One callback more starts, sleeps and loads the count, 0.
  loads : (k : ℕ) → k ≤ n → Lined max n k (storing 0) 0
  unfolding callback
  loads zero le = ready
  loads (suc k) le =
      let l = loads k (omega (arith, le)) in
      let lt : k < n = omega (arith, le) in
      let running : is_running l.state.main ≡ true = rw l.in_loop refl in
      let fires : callback info k (l.state.pc k) l.state
          ≡ some (record l.state {
            pc = update l.state.pc k sleeping;
            lines = l.state.lines ++ report info;
          }) =
        rw (l.above k (omega arith), l.is_armed) refl in
      let r1 = notify _ info k l.reached lt running fires in
      let s1 : System = record l.state {
        pc = update l.state.pc k sleeping;
        lines = l.state.lines ++ report info;
      } in
      let s2 : System = record s1 { pc = update s1.pc k loading } in
      let s3 : System = record s2 { pc = update s2.pc k (storing s2.callback_count) } in
      let r2 : Reach max n s2 =
        notify s2 info k r1 lt running (rw (update-at l.state.pc k sleeping) refl) in
      let r3 : Reach max n s3 =
        notify s3 info k r2 lt running (rw (update-at s1.pc k loading) refl) in
      record {
        state = s3;
        reached = r3;
        is_armed = l.is_armed;
        in_loop = l.in_loop;
        amount = l.amount;
        below = λ t less. ground (arith, l.below t, l.amount);
        above = λ t ge. ground (arith, l.above t);
      }

  -- Then they store, one after the other.
  stores : (j : ℕ) → j ≤ n → Stored max n j
  unfolding callback
  stores zero le =
      let l = loads n (omega arith) in
      record {
        state = l.state;
        reached = l.reached;
        in_loop = l.in_loop;
        amount = λ some_j. absurd (omega (arith, some_j));
        below = λ t less. absurd (omega (arith, less));
        above = λ t ge less. l.below t less;
      }
  stores (suc j) le =
      let l = stores j (omega (arith, le)) in
      let lt : j < n = omega (arith, le) in
      let running : is_running l.state.main ≡ true = rw l.in_loop refl in
      let s1 : System = record l.state { callback_count = 1; pc = update l.state.pc j finished } in
      let r1 : Reach max n s1 =
        notify s1 info j l.reached lt running (rw (l.above j (omega arith) lt) refl) in
      record {
        state = s1;
        reached = r1;
        in_loop = l.in_loop;
        amount = λ some_j. refl;
        below = λ t less. ground (arith, l.below t);
        above = λ t ge less. ground (arith, l.above t);
      }

-- For every number n of notifications, one or more: there is a run in which all n callbacks have made
-- their increment and g_callbackCount is 1, so `main` goes on waiting when g_maxCallbackCount is above 1.
pub callback_counts_lost :
    (max n : ℕ)
    → 0 < n
    → Info
    → (s : System) × Reach max n s
      × ((t : ℕ) → t < n → s.pc t ≡ finished)
      × (s.callback_count ≡ 1)
      × (s.main ≡ testing)
callback_counts_lost max n some_n info =
    let l = stores max n info n (omega arith) in
    (l.state, l.reached, l.below, l.amount some_n, l.in_loop)
