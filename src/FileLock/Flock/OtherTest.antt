-- ===== src/FileLock/Flock/OtherTest.antt =====
-- `_otherTest` on a file that nobody or somebody else has locked.
use linux_programing_demo.Common.{
  if◌then◌else◌, ℕ, ◌+◌, ◌≤◌, ◌<◌, ◌≡◌, refl, Bool, false, ◌||◌, Option, none, some, List, [], ◌∷◌,
  arith,
}
use linux_programing_demo.FileLock.Flock.{
  Kernel, without, referred, is_nil, TestEnd, first_refused, second, other_test,
}

-- Every descriptor, description and holder is numbered below the bound.
abbrev pub Below : ℕ → List (ℕ × ℕ) → Type 0
Below b [] = Unit
Below b ((d, o) ∷ l) = (d < b) × (o < b) × Below b l

abbrev pub HoldersBelow : ℕ → List (ℕ × Bool) → Type 0
HoldersBelow b [] = Unit
HoldersBelow b ((o, x) ∷ l) = (o < b) × HoldersBelow b l

pub without-Below : (b k : ℕ) (l : List (ℕ × ℕ)) → Below b l → b ≤ k → without k l ≡ l
unfolding without
without-Below b k [] h le = refl
without-Below b k ((d, o) ∷ l) h le = ground (arith, without-Below b k l h.2)

pub without-holders : (b k : ℕ) (l : List (ℕ × Bool)) → HoldersBelow b l → b ≤ k → without k l ≡ l
unfolding without
without-holders b k [] h le = refl
without-holders b k ((o, x) ∷ l) h le = ground (arith, without-holders b k l h.1)

pub referred-Below : (b o : ℕ) (l : List (ℕ × ℕ)) → Below b l → b ≤ o → referred o l ≡ false
unfolding referred
referred-Below b o [] h le = refl
referred-Below b o ((d, o') ∷ l) h le = ground (arith, referred-Below b o l h.2)

-- The locks and descriptors at the end, and what became of the two requests.
abbrev pub outcome : TestEnd → Option Bool × List (ℕ × ℕ) × List (ℕ × Bool)
outcome (first_refused k) = (none, k.fds, k.holders)
outcome (second got k) = (some got, k.fds, k.holders)

module _ (fds : List (ℕ × ℕ)) (b : ℕ) (below : Below b fds) where
  abbrev free_kernel : Kernel
  free_kernel = record { fds = fds; holders = []; bound = b }

  free_cases : (d c : Bool) → outcome (other_test d c free_kernel) ≡ (some (d || c), fds, [])
  unfolding other_test
  free_cases false false = ground (
    arith,
    without-Below b b fds below,
    without-Below b (b + 1) fds below,
    referred-Below b b fds below,
    referred-Below b (b + 1) fds below,
  )
  free_cases _ _ = ground (
    arith,
    without-Below b b fds below,
    without-Below b (b + 1) fds below,
    without-Below b (b + 1 + 1) fds below,
    referred-Below b b fds below,
    referred-Below b (b + 1) fds below,
  )

  held_cases :
      (d c : Bool) (o : ℕ) (x : Bool) (l : List (ℕ × Bool))
      → HoldersBelow b ((o, x) ∷ l)
      → outcome (other_test d c (record { fds = fds; holders = (o, x) ∷ l; bound = b }))
        ≡ (none, fds, (o, x) ∷ l)
  unfolding other_test
  held_cases d c o x l h = ground (
    arith,
    without-Below b b fds below,
    without-Below b (b + 1) fds below,
    referred-Below b b fds below,
    referred-Below b (b + 1) fds below,
    without-holders b b l h.1,
    without-holders b (b + 1) l h.1,
  )

by_holders :
    (d c : Bool) (fds : List (ℕ × ℕ)) (h : List (ℕ × Bool)) (b : ℕ)
    → Below b fds
    → HoldersBelow b h
    → outcome (other_test d c (record { fds = fds; holders = h; bound = b }))
      ≡ ((if is_nil h then some (d || c) else none), fds, h)
unfolding is_nil
by_holders d c fds [] b below held = free_cases fds b below d c
by_holders d c fds ((o, x) ∷ l) b below held = held_cases fds b below d c o x l held

-- `_otherTest` leaves the descriptors and the locks as it found them. If another description holds
-- a lock, it is refused at once. If none does, the lock through the second description is got
-- exactly when the first one was unlocked through its duplicate or closed: so closing the only
-- descriptor of a description does unlock it, though the program prints that it will not.
pub other_test_lem :
    (test_dup test_close : Bool) (k : Kernel)
    → Below k.bound k.fds
    → HoldersBelow k.bound k.holders
    → outcome (other_test test_dup test_close k)
      ≡ ((if is_nil k.holders then some (test_dup || test_close) else none), k.fds, k.holders)
other_test_lem d c k below held = by_holders d c k.fds k.holders k.bound below held
