-- ===== src/Timer/Posix/Counting.antt =====
-- How many callbacks have counted when `main` ends.
use linux_programing_demo.Common.{pos, ℕ, ◌+◌, ◌^◌, ◌≤◌, ◌<◌, ◌≡◌, refl, Bool, some, arith}
use linux_programing_demo.Threads.Family.{update, total, total-update}
use linux_programing_demo.Timer.Posix.{
  Info, Pc, unfired, sleeping, loading, storing, finished, Main, creating, testing, deleting,
  returned, System, init, callback, master, Reach, begin, notify, lead,
}

abbrev pub counted : Pc → ℕ
counted finished = 1
counted _ = 0

-- No callback has read more than the number of callbacks that have counted.
abbrev Seen : ℕ → Pc → Type 0
Seen k (storing v) = v ≤ k
Seen k _ = Unit

abbrev Ends : ℕ → ℕ → Main → Type 0
Ends max k deleting = max ≤ k
Ends max k (returned (pos r)) = max ≤ k
Ends max k _ = Unit

record Inv (max n : ℕ) (s : System) : Type 0 where
  bounded : s.callback_count ≤ total counted n s.pc
  seen : (t : ℕ) → Seen (total counted n s.pc) (s.pc t)
  ends : Ends max (total counted n s.pc) s.main

Seen-up : (a b : ℕ) (p : Pc) → a ≤ b → Seen a p → Seen b p
Seen-up a b (storing v) le h = omega (arith, le, h)
Seen-up a b _ le h = h

Ends-up : (max a b : ℕ) (m : Main) → a ≤ b → Ends max a m → Ends max b m
Ends-up max a b deleting le h = omega (arith, le, h)
Ends-up max a b (returned (pos r)) le h = omega (arith, le, h)
Ends-up max a b _ le h = h

module _ (max n : ℕ) (s s' : System) (inv : Inv max n s) where
  moved :
      (t : ℕ) (p : Pc)
      → t < n
      → total counted n (update s.pc t p) + counted (s.pc t) ≡ total counted n s.pc + counted p
  moved t p lt = total-update counted n t s.pc p lt

  callback-total :
      (info : Info) (t : ℕ) (p : Pc)
      → t < n
      → s.pc t ≡ p
      → callback info t p s ≡ some s'
      → (total counted n s.pc ≤ total counted n s'.pc)
        × (s'.callback_count ≤ total counted n s'.pc)
        × (s'.main ≡ s.main)
  unfolding callback
  callback-total info t unfired lt e h = ground (arith, inv.bounded, moved t sleeping lt)
  callback-total info t sleeping lt e h = ground (arith, inv.bounded, moved t loading lt)
  callback-total info t loading lt e h =
      ground (arith, inv.bounded, moved t (storing s.callback_count) lt)
  callback-total info t (storing v) lt e h =
      ground (arith, inv.bounded, inv.seen t, moved t finished lt)
  callback-total info t finished lt e h = cc

  callback-Seen :
      (info : Info) (t : ℕ) (p : Pc) (u : ℕ)
      → t < n
      → s.pc t ≡ p
      → callback info t p s ≡ some s'
      → Seen (total counted n s'.pc) (s'.pc u)
  unfolding callback
  callback-Seen info t unfired u lt e h =
      let up = Seen-up _ _ (s.pc u) (callback-total info t unfired lt e h).0 (inv.seen u) in
      ground (arith, up)
  callback-Seen info t loading u lt e h =
      let up = Seen-up _ _ (s.pc u) (callback-total info t loading lt e h).0 (inv.seen u) in
      let le = (callback-total info t loading lt e h).1 in ground (arith, up, le)
  callback-Seen info t p u lt e h =
      let up = Seen-up _ _ (s.pc u) (callback-total info t p lt e h).0 (inv.seen u) in
      ground (arith, up)

  callback-Inv : (info : Info) (t : ℕ) → t < n → callback info t (s.pc t) s ≡ some s' → Inv max n s'
  callback-Inv info t lt h =
      let (up, le, same) = callback-total info t (s.pc t) lt refl h in
      record {
        bounded = le;
        seen = λ u. callback-Seen info t (s.pc t) u lt refl h;
        ends = rw same (Ends-up max _ _ s.main up inv.ends);
      }

  -- `main` touches no callback, and leaves its loop for the count only.
  master-Inv : (ok : Bool) (m : Main) → s.main ≡ m → master max ok m s ≡ some s' → Inv max n s'
  unfolding master
  master-Inv ok creating e h = record {
    bounded = ground (arith, inv.bounded);
    seen = λ u. ground (arith, inv.seen u);
    ends = ground arith;
  }
  master-Inv ok testing e h = record {
    bounded = ground (arith, inv.bounded);
    seen = λ u. ground (arith, inv.seen u);
    ends = ground (arith, inv.bounded);
  }
  master-Inv ok deleting e h = record {
    bounded = ground (arith, inv.bounded);
    seen = λ u. ground (arith, inv.seen u);
    ends = ground (arith, inv.ends);
  }
  master-Inv ok _ e h = record {
    bounded = ground (arith, inv.bounded);
    seen = λ u. ground (arith, inv.seen u);
    ends = ground arith;
  }

init-Inv : (max n : ℕ) → Inv max n init
init-Inv max n = record { bounded = omega arith; seen = λ t. tt; ends = tt }

Reach-Inv : (max n : ℕ) {s : System} → Reach max n s → Inv max n s
Reach-Inv max n begin = init-Inv max n
Reach-Inv max n (notify {s = s} s' info t r lt run h) =
    callback-Inv max n s s' (Reach-Inv max n r) info t lt h
Reach-Inv max n (lead {s = s} s' ok r h) =
    master-Inv max n s s' (Reach-Inv max n r) ok s.main refl h

-- With fewer than 2 ^ 31 notifications, in every run: g_callbackCount is at most the number of callbacks
-- that have made their increment, and `main` returns 0 only after at least g_maxCallbackCount of them
-- have made it.
pub callbacks_counted :
    (max n : ℕ) (s : System)
    → n < 2 ^ 31
    → Reach max n s
    → (s.callback_count ≤ total counted n s.pc)
      × (s.main ≡ returned (pos 0) → max ≤ total counted n s.pc)
callbacks_counted max n s small r =
    let inv = Reach-Inv max n r in (inv.bounded, λ e. ground (arith, inv.ends))
