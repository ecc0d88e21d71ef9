-- ===== src/Ipc/SharedMemory/LostCounts.antt =====
-- The POSIX program loses counts: its creator sets the `int` after the others can find the object.
use linux_programing_demo.Common.{
  ℕ, zero, suc, ◌+◌, ◌-◌, ◌*◌, ◌^◌, ◌≤◌, ◌<◌, ◌≡◌, refl, ◌≢◌, true, false, some, arith, add-zero,
}
use linux_programing_demo.Threads.Family.{update}
use linux_programing_demo.Ipc.SharedMemory.{
  start, truncating, mapping, setting, opened, counting, System, count, advance, Reach, begin, act,
}

-- A state that a run reaches from `s` by `d` rounds of process `t`, the `i`-th of its loop first.
record Counted (max : ℕ) (s : System) (t i d : ℕ) : Type 0 where
  later : System
  reached : Reach (advance max) 2 later
  place : later.pc t ≡ counting (i + d)
  others : (u : ℕ) → u ≢ t → later.pc u ≡ s.pc u
  amount : later.number ≡ s.number + d
  has_size : later.sized ≡ true

module _ (max : ℕ) where
  moves :
      {s s' : System}
      → Reach (advance max) 2 s
      → (t : ℕ) → t < 2
      → advance max t (s.pc t) s ≡ some s'
      → Reach (advance max) 2 s'
  moves {s' = s'} r t lt h = act s' t r lt h

  counts :
      (d : ℕ) (s : System) (t i : ℕ)
      → t < 2
      → Reach (advance max) 2 s
      → s.pc t ≡ counting i
      → s.sized ≡ true
      → i + d ≤ max
      → s.number + d < 2 ^ 32
      → Counted max s t i d
  unfolding advance count
  counts zero s t i lt r e z le fits = record {
    later = s;
    reached = r;
    place = rw (add-zero i) e;
    others = λ u ne. refl;
    amount = omega arith;
    has_size = z;
  }
  counts (suc d) s t i lt r e z le fits =
      let s1 : System = record s { number = s.number + 1; pc = update s.pc t (counting (i + 1)) } in
      let r1 : Reach (advance max) 2 s1 = moves r t lt (rw e (ground (arith, z, le, fits))) in
      let rest =
        counts d s1 t (i + 1) lt r1 (ground arith) z (omega (arith, le)) (omega (arith, fits)) in
      record {
        later = rest.later;
        reached = rest.reached;
        place = ground (arith, rest.place);
        others = λ u ne. ground (arith, rest.others u ne);
        amount = omega (arith, rest.amount);
        has_size = rest.has_size;
      }

  -- The object is there with its size, and its creator, process 0, is before `mmap`.
  abbrev found : System
  found = record {
    creator = some 0;
    unlinked = false;
    sized = true;
    number = 0;
    pc =
        update (update (update (update (λ _. start) 0 truncating) 0 mapping) 1 opened) 1
          (counting 0);
  }

  found-reached : Reach (advance max) 2 found
  unfolding advance count
  found-reached =
      let r1 = moves begin 0 (omega arith) refl in
      let r2 = moves r1 0 (omega arith) refl in
      let r3 = moves r2 1 (omega arith) refl in moves r3 1 (omega arith) refl

-- Two processes, and any number k of rounds that the second one makes between the creator's ftruncate
-- and its reset: there is a run in which both have made all their rounds and the number is 2 * max - k.
pub counts_lost :
    (max k : ℕ)
    → k ≤ max
    → 2 * max < 2 ^ 31
    → (s : System) × Reach (advance max) 2 s
      × (s.pc 0 ≡ counting max)
      × (s.pc 1 ≡ counting max)
      × (s.number + k ≡ 2 * max)
unfolding advance count
counts_lost max k le fits =
    let a =
      counts max k (found max) 1 0 (omega arith) (found-reached max) refl refl (omega (arith, le))
        (omega (arith, le, fits)) in
    let a0 : a.later.pc 0 ≡ mapping = ground (arith, a.others 0 (omega arith)) in
    let s1 : System = record a.later { pc = update a.later.pc 0 setting } in
    let r1 : Reach (advance max) 2 s1 = moves max a.reached 0 (omega arith) (rw a0 refl) in
    let s2 : System = record s1 { number = 0; pc = update s1.pc 0 (counting 0) } in
    let r2 : Reach (advance max) 2 s2 = moves max r1 0 (omega arith) refl in
    let b =
      counts max max s2 0 0 (omega arith) r2 refl a.has_size (omega arith) (omega (arith, fits)) in
    let b1 : b.later.pc 1 ≡ counting k = ground (arith, b.others 1 (omega arith), a.place) in
    let c =
      counts max (max - k) b.later 1 k (omega arith) b.reached b1 b.has_size (omega (arith, le))
        (omega (arith, le, fits, b.amount)) in
    (
      c.later,
      c.reached,
      ground (arith, c.others 0 (omega arith), b.place),
      ground (arith, c.place, le),
      omega (arith, c.amount, b.amount, le),
    )
