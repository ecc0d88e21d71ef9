-- ===== src/Threads/Detached/Outcome.antt =====
-- How the process ends.
use linux_programing_demo.Common.{
  ◌==◌, ==_iff, ℤ, pos, ℕ, ◌≡◌, refl, sym, ap, subst, ◌∙◌, ◌≢◌, ◌↔◌, Bool, true, false, ◌||◌, some,
  List, [], ◌∷◌, arith,
}
use linux_programing_demo.Threads.Detached.{
  Child, absent, fresh, asleep, returned, Main, calling_once, init_asleep, creating_first,
  creating_second, detaching, joining, reporting, leaving, exited, Line, will_sleep, sleep_finish,
  child_return, System, func, master, is_running, Reach, begin, lead, act_first, act_second,
}

-- The thread is in `_func` with the argument `t`.
abbrev pub holds : ℕ → Child → Bool
holds t absent = false
holds t (fresh u) = u == t
holds t (asleep u) = u == t
holds t (returned u) = u == t

abbrev is_returned : Child → Bool
is_returned (returned u) = true
is_returned _ = false

abbrev is_finish : ℕ → Line → Bool
is_finish t (sleep_finish u) = u == t
is_finish t _ = false

abbrev is_report : ℕ → Line → Bool
is_report t (child_return u) = u == t
is_report t _ = false

-- A line that the test accepts has been printed.
abbrev pub printed : (Line → Bool) → List Line → Bool
printed test [] = false
printed test (l ∷ ls) = test l || printed test ls

abbrev Ended : System → Type 0
Ended s =
    (holds 3 s.first ≡ true)
    × (is_returned s.first ≡ true)
    × (holds 5 s.second ≡ true)
    × (s.detached ≡ true)

-- What `main`'s place says of the threads.
abbrev Fits : Main → System → Type 0
Fits calling_once s = (s.first ≡ absent) × (s.second ≡ absent)
Fits init_asleep s = (s.first ≡ absent) × (s.second ≡ absent)
Fits creating_first s = (s.first ≡ absent) × (s.second ≡ absent)
Fits creating_second s = (holds 3 s.first ≡ true) × (s.second ≡ absent)
Fits detaching s = (holds 3 s.first ≡ true) × (holds 5 s.second ≡ true)
Fits joining s = (holds 3 s.first ≡ true) × (holds 5 s.second ≡ true) × (s.detached ≡ true)
Fits (reporting t) s = Ended s × (t ≡ 3)
Fits leaving s = Ended s × (printed (is_report 3) s.lines ≡ true)
Fits (exited r) s = r ≡ pos 0 → Ended s × (printed (is_report 3) s.lines ≡ true)

record Inv (s : System) : Type 0 where
  fits : Fits s.main s
  finished :
      holds 3 s.first ≡ true → is_returned s.first ≡ true → printed (is_finish 3) s.lines ≡ true

module _ (s : System) (inv : Inv s) where
  master-Fits :
      (s' : System) (ret : ℤ) (m : Main) → s.main ≡ m → master ret m s ≡ some s' → Fits s'.main s'
  unfolding master
  master-Fits s' ret joining e h = ground (arith, inv.fits)
  master-Fits s' ret (reporting t) e h = ground (arith, inv.fits)
  master-Fits s' ret leaving e h = ground (arith, inv.fits)
  master-Fits s' ret (exited r) e h = cc
  master-Fits s' ret _ e h = ground (arith, inv.fits)

  master-finished :
      (s' : System) (ret : ℤ) (m : Main)
      → s.main ≡ m
      → master ret m s ≡ some s'
      → holds 3 s'.first ≡ true
      → is_returned s'.first ≡ true
      → printed (is_finish 3) s'.lines ≡ true
  unfolding master
  master-finished s' ret joining e h a b = ground (arith, inv.finished)
  master-finished s' ret (exited r) e h a b = cc
  master-finished s' ret _ e h a b = ground (arith, inv.finished)

  master-Inv : (s' : System) (ret : ℤ) → master ret s.main s ≡ some s' → Inv s'
  master-Inv s' ret h = record {
    fits = master-Fits s' ret s.main refl h;
    finished = master-finished s' ret s.main refl h;
  }

func-holds :
    (t : ℕ) (c c' : Child) (l : Line)
    → func c ≡ some (c', l)
    → (c ≢ absent)
      × (is_returned c ≡ false)
      × (holds t c' ≡ holds t c)
      × (is_returned c' ≡ true → holds t c' ≡ true → is_finish t l ≡ true)
      × (is_report t l ≡ false)
unfolding func
func-holds t absent c' l h = cc
func-holds t (fresh u) c' l h = (ground arith, refl, ground arith, ground arith, ground arith)
func-holds t (asleep u) c' l h = (ground arith, refl, ground arith, ground arith, ground arith)
func-holds t (returned u) c' l h = cc

module _ (s : System) (inv : Inv s) (c : Child) (l : Line) (run : is_running s.main ≡ true) where
  first-Fits :
      (m : Main)
      → s.main ≡ m
      → func s.first ≡ some (c, l)
      → Fits m (record s { first = c; lines = l ∷ s.lines })
  first-Fits (exited r) e h = ground (arith, run)
  first-Fits leaving e h = ground (arith, inv.fits, func-holds 3 s.first c l h)
  first-Fits (reporting t) e h = ground (arith, inv.fits, func-holds 3 s.first c l h)
  first-Fits _ e h = ground (arith, inv.fits, func-holds 3 s.first c l h)

  second-Fits :
      (m : Main)
      → s.main ≡ m
      → func s.second ≡ some (c, l)
      → Fits m (record s { second = c; lines = l ∷ s.lines })
  second-Fits (exited r) e h = ground (arith, run)
  second-Fits _ e h = ground (arith, inv.fits, func-holds 5 s.second c l h)

  first-Inv : func s.first ≡ some (c, l) → Inv (record s { first = c; lines = l ∷ s.lines })
  first-Inv h = record {
    fits = first-Fits s.main refl h;
    finished = λ a b. ground (arith, func-holds 3 s.first c l h, a, b);
  }

  second-Inv : func s.second ≡ some (c, l) → Inv (record s { second = c; lines = l ∷ s.lines })
  second-Inv h = record {
    fits = second-Fits s.main refl h;
    finished = λ a b. ground (arith, inv.finished a b);
  }

Reach-Inv : {s : System} → Reach s → Inv s
Reach-Inv begin = record { fits = (refl, refl); finished = λ a b. cc }
Reach-Inv (lead {s = s} s' ret r h) = master-Inv s (Reach-Inv r) s' ret h
Reach-Inv (act_first {s = s} c l r run h) = first-Inv s (Reach-Inv r) c l run h
Reach-Inv (act_second {s = s} c l r run h) = second-Inv s (Reach-Inv r) c l run h

-- When `main` returns 0, the first thread has returned 3, and both its last line and `main`'s report of
-- the 3 have been printed, and the second thread is detached.
pub exit_zero :
    (s : System)
    → Reach s
    → s.main ≡ exited (pos 0)
    → (s.first ≡ returned 3)
      × (printed (is_finish 3) s.lines ≡ true)
      × (printed (is_report 3) s.lines ≡ true)
      × (s.detached ≡ true)
exit_zero s r e =
    let inv = Reach-Inv r in
    let (ended, reported) = subst (λ m. Fits m s) e inv.fits refl in
    (ground (arith, ended), inv.finished ended.0 ended.1, reported, ended.3)

-- The second thread is at `c` when `main` returns 0.
abbrev pub EndsAt : Child → Type 0
EndsAt c = (s : System) × Reach s × (s.main ≡ exited (pos 0)) × (s.second ≡ c)

-- `main`'s calls all succeed.
leads : {s s' : System} → Reach s → master (pos 0) s.main s ≡ some s' → Reach s'
leads {s' = s'} r h = lead s' (pos 0) r h

-- `main` up to its join, with the first thread at its end.
abbrev before_join : Child → List Line → System
before_join c ls = record {
  first = returned 3;
  second = c;
  detached = true;
  main = joining;
  lines = ls;
}

created : (ls : List Line) × Reach (before_join (fresh 5) ls)
unfolding master func
created =
    let r1 = leads begin refl in
    let r2 = leads r1 refl in
    let r3 = leads r2 refl in
    let r4 = leads r3 refl in
    let r5 = leads r4 refl in
    let r6 = act_first (asleep 3) (will_sleep 3) r5 refl refl in
    (_, act_first (returned 3) (sleep_finish 3) r6 refl refl)

left : (c : Child) (ls : List Line) → Reach (before_join c ls) → EndsAt c
unfolding master
left c ls r = let r1 = leads r refl in let r2 = leads r1 refl in (_, leads r2 refl, refl, refl)

-- The second thread's two steps.
asleep_then : Reach (before_join (asleep 5) (will_sleep 5 ∷ created.0))
unfolding func created
asleep_then = act_second (asleep 5) (will_sleep 5) created.1 refl refl

returned_then : Reach (before_join (returned 5) (sleep_finish 5 ∷ will_sleep 5 ∷ created.0))
unfolding func created
returned_then = act_second (returned 5) (sleep_finish 5) asleep_then refl refl

ends_at : (c : Child) → holds 5 c ≡ true → EndsAt c
ends_at absent h = cc
ends_at (fresh u) h = rw ((==_iff u 5).0 h) (left (fresh 5) _ created.1)
ends_at (asleep u) h = rw ((==_iff u 5).0 h) (left (asleep 5) _ asleep_then)
ends_at (returned u) h = rw ((==_iff u 5).0 h) (left (returned 5) _ returned_then)

-- When `main` returns 0, the second thread, which has its argument 5, may be anywhere in `_func`, also
-- before its first line, and is nowhere else: whether it prints its lines depends on the order of the
-- steps alone.
pub detached_anywhere : (c : Child) → EndsAt c ↔ (holds 5 c ≡ true)
detached_anywhere c = (
  λ (s, r, e, same).
      ap (holds 5) (sym same) ∙ (subst (λ m. Fits m s) e (Reach-Inv r).fits refl).0.2,
  ends_at c,
)
