-- ===== src/FileLock/Flock/Released.antt =====
-- `main` of io/file_lock/flock/main.c leaves the locks and the descriptors as it found them.
use linux_programing_demo.Common.{
  if◌then◌else◌, ℕ, ◌+◌, ◌≤◌, ◌≡◌, refl, sym, ap, subst, ◌∙◌, Bool, true, false, not, ◌||◌, Option,
  none, some, List, [], ◌∷◌, arith,
}
use linux_programing_demo.FileLock.Flock.{
  Kernel, open_file, dup, close, is_nil, lock_exclusive_nb, unlock, TestEnd, first_refused, second,
  dup_part, close_part, close_if, after_first, other_test,
}
use linux_programing_demo.FileLock.Flock.OtherTest.{
  Below, HoldersBelow, without-Below, without-holders, referred-Below, outcome, other_test_lem,
}
use linux_programing_demo.FileLock.Flock.Program.{
  all_shared, take_lock, kernel_of, MainEnd, already_locked, waits, tested, test_all, run_main,
}

Below-up : (a b : ℕ) (l : List (ℕ × ℕ)) → a ≤ b → Below a l → Below b l
Below-up a b [] le h = tt
Below-up a b ((d, o) ∷ l) le h =
    (omega (arith, le, h.0), omega (arith, le, h.1), Below-up a b l le h.2)

HoldersBelow-up : (a b : ℕ) (l : List (ℕ × Bool)) → a ≤ b → HoldersBelow a l → HoldersBelow b l
HoldersBelow-up a b [] le h = tt
HoldersBelow-up a b ((o, x) ∷ l) le h = (omega (arith, le, h.0), HoldersBelow-up a b l le h.1)

close-bound : (d : ℕ) (k : Kernel) → (close d k).bound ≡ k.bound
unfolding close
close-bound d k = ground arith

unlock-bound : (d : ℕ) (k : Kernel) → (unlock d k).bound ≡ k.bound
unfolding unlock
unlock-bound d k = ground arith

dup-bound : (d : ℕ) (k : Kernel) → k.bound ≤ (dup d k).1.bound
unfolding dup
dup-bound d k = ground arith

close_if-bound : (o : Option ℕ) (k : Kernel) → (close_if o k).bound ≡ k.bound
unfolding close_if
close_if-bound none k = refl
close_if-bound (some d) k = close-bound d k

dup_part-bound : (b : Bool) (d : ℕ) (k : Kernel) → k.bound ≤ (dup_part b d k).1.bound
unfolding dup_part
dup_part-bound false d k = omega arith
dup_part-bound true d k = omega (arith, unlock-bound (dup d k).0 (dup d k).1, dup-bound d k)

close_part-bound : (b : Bool) (d : ℕ) (k : Kernel) → (close_part b d k).1.bound ≡ k.bound
unfolding close_part
close_part-bound false d k = refl
close_part-bound true d k = close-bound d k

lock-bound : (d : ℕ) (k k' : Kernel) → lock_exclusive_nb d k ≡ some k' → k'.bound ≡ k.bound
unfolding lock_exclusive_nb
lock-bound d k k' h = ground arith

close_ifs-bound :
    (a b c : Option ℕ) (k : Kernel) → (close_if a (close_if b (close_if c k))).bound ≡ k.bound
close_ifs-bound a b c k = omega (
  arith,
  close_if-bound a (close_if b (close_if c k)),
  close_if-bound b (close_if c k),
  close_if-bound c k,
)

second-bound :
    (a b c : Option ℕ) (k : Kernel) (o : Option Kernel)
    → ((k' : Kernel) → o ≡ some k' → k'.bound ≡ k.bound)
    → (kernel_of (elim o [
      | none ↦ second false (close_if a (close_if b (close_if c k)))
      | some k' ↦ second true (close_if a (close_if b (close_if c k')))
    ])).bound
      ≡ k.bound
second-bound a b c k none h = close_ifs-bound a b c k
second-bound a b c k (some k') h = close_ifs-bound a b c k' ∙ h k' refl

after_first-bound :
    (d c : Bool) (fd1 fd2 : ℕ) (k : Kernel)
    → k.bound ≤ (kernel_of (after_first d c fd1 fd2 k)).bound
unfolding after_first
after_first-bound d c fd1 fd2 k =
    let (fd3, k1) = dup_part d fd1 k in
    let (fd1', k2) = close_part c fd1 k1 in
    omega (
      arith,
      second-bound fd3 (some fd2) fd1' k2 (lock_exclusive_nb fd2 k2)
          (λ k' e. lock-bound fd2 k2 k' e),
      close_part-bound c fd1 k1,
      dup_part-bound d fd1 k,
    )

first-bound :
    (d c : Bool) (fd1 fd2 : ℕ) (k : Kernel) (o : Option Kernel)
    → ((k' : Kernel) → o ≡ some k' → k'.bound ≡ k.bound)
    → k.bound
      ≤ (kernel_of (elim o [
        | none ↦ first_refused (close fd2 (close fd1 k))
        | some k' ↦ after_first d c fd1 fd2 k'
      ])).bound
first-bound d c fd1 fd2 k none h = omega (arith, close-bound fd2 (close fd1 k), close-bound fd1 k)
first-bound d c fd1 fd2 k (some k') h = omega (arith, after_first-bound d c fd1 fd2 k', h k' refl)

other_test-bound : (d c : Bool) (k : Kernel) → k.bound ≤ (kernel_of (other_test d c k)).bound
unfolding other_test
other_test-bound d c k =
    let (fd1, k1) = open_file k in
    let (fd2, k2) = open_file k1 in
    omega (
      arith,
      first-bound d c fd1 fd2 k2 (lock_exclusive_nb fd1 k2) (λ k' e. lock-bound fd1 k2 k' e),
    )

-- Does no other lock stand against the one asked for?
abbrev pub grantable : Bool → List (ℕ × Bool) → Bool
grantable shared l = if shared then all_shared l else is_nil l

-- The kernel while `main` holds its lock.
abbrev holding : Bool → Kernel → Kernel
holding shared k = record {
  fds = (k.bound, k.bound) ∷ k.fds;
  holders = (k.bound, not shared) ∷ k.holders;
  bound = k.bound + 1;
}

module _ (k : Kernel) (below : Below k.bound k.fds) (held : HoldersBelow k.bound k.holders) where
  take_lock-open :
      (shared : Bool)
      → take_lock shared (open_file k).0 (open_file k).1
        ≡ (if grantable shared k.holders then some (holding shared k) else none)
  unfolding take_lock open_file
  take_lock-open shared = ground (arith, without-holders k.bound k.bound k.holders held)

  close-unlock :
      (shared : Bool)
      → close (open_file k).0 (unlock (open_file k).0 (holding shared k))
        ≡ record k { bound = k.bound + 1 }
  unfolding close unlock open_file
  close-unlock shared = ground (
    arith,
    without-holders k.bound k.bound k.holders held,
    without-Below k.bound k.bound k.fds below,
    referred-Below k.bound k.bound k.fds below,
  )

outcome-kernel :
    (t : TestEnd) {x : Option Bool} {f : List (ℕ × ℕ)} {h : List (ℕ × Bool)}
    → outcome t ≡ (x, f, h)
    → ((kernel_of t).fds ≡ f) × ((kernel_of t).holders ≡ h)
outcome-kernel (first_refused k) e = (ap (λ o. o.1) e, ap (λ o. o.2) e)
outcome-kernel (second got k) e = (ap (λ o. o.1) e, ap (λ o. o.2) e)

-- A kernel like `k`, but for numbers that are not in use.
record Like (k k' : Kernel) : Type 0 where
  same_fds : k'.fds ≡ k.fds
  same_holders : k'.holders ≡ k.holders
  more : k.bound ≤ k'.bound

abbrev pub Shows : Kernel → Bool → TestEnd → Type 0
Shows k got t = outcome t ≡ ((if is_nil k.holders then some got else none), k.fds, k.holders)

-- The three tests, and what each of them shows.
abbrev pub Restored : Kernel → MainEnd → Type 0
Restored k (tested a b c) =
    Shows k false a
    × Shows k true b
    × Shows k true c
    × ((kernel_of c).fds ≡ k.fds)
    × ((kernel_of c).holders ≡ k.holders)
Restored k _ = ⊥

module _ (k : Kernel) (below : Below k.bound k.fds) (held : HoldersBelow k.bound k.holders) where
  Like-Shows :
      (d c : Bool) (k' : Kernel)
      → Like k k'
      → Shows k (d || c) (other_test d c k') × Like k (kernel_of (other_test d c k'))
  Like-Shows d c k' l =
      let b : Below k'.bound k'.fds =
        subst (Below k'.bound) (sym l.same_fds) (Below-up k.bound k'.bound k.fds l.more below) in
      let h : HoldersBelow k'.bound k'.holders =
        subst (HoldersBelow k'.bound) (sym l.same_holders)
          (HoldersBelow-up k.bound k'.bound k.holders l.more held) in
      let shows : Shows k (d || c) (other_test d c k') =
        other_test_lem d c k' b h ∙ rw (l.same_fds, l.same_holders) refl in
      let (same_fds, same_holders) = outcome-kernel (other_test d c k') shows in
      (
        shows,
        record {
          same_fds = same_fds;
          same_holders = same_holders;
          more = omega (arith, l.more, other_test-bound d c k');
        },
      )

  test_all-Restored : (k' : Kernel) → Like k k' → Restored k (test_all k')
  unfolding test_all
  test_all-Restored k' l =
      let (one, l1) = Like-Shows false false k' l in
      let (two, l2) = Like-Shows true false _ l1 in
      let (three, l3) = Like-Shows false true _ l2 in
      (one, two, three, l3.same_fds, l3.same_holders)

  -- On descriptors and locks with numbers below the bound, when the lock can be granted: `main` ends with
  -- all descriptors and locks as they were before, and its tests show, if the file is not locked by
  -- others, that the second lock fails, and succeeds after the unlock of the duplicate and after the
  -- close, and else that the first lock is refused.
  pub run_main-Restored :
      (shared nonblocking : Bool)
      → grantable shared k.holders ≡ true
      → Restored k (run_main shared nonblocking k)
  unfolding run_main
  run_main-Restored shared nonblocking fits =
      let got : take_lock shared (open_file k).0 (open_file k).1 ≡ some (holding shared k) =
        rw fits at (take_lock-open k below held shared) in
      rw (got, run_main)
        (subst (λ q. Restored k (test_all q)) (sym (close-unlock k below held shared))
          (test_all-Restored (record k { bound = k.bound + 1 })
            (record { same_fds = refl; same_holders = refl; more = omega arith })))

  -- When it cannot be granted, `main` ends at once with -1 or waits, by the `n` of the argument.
  pub run_main_refused :
      (shared nonblocking : Bool)
      → grantable shared k.holders ≡ false
      → run_main shared nonblocking k
        ≡ (if nonblocking then already_locked (open_file k).1 else waits (open_file k).1)
  unfolding run_main
  run_main_refused shared nonblocking against =
      let not_got : take_lock shared (open_file k).0 (open_file k).1 ≡ none =
        rw against at (take_lock-open k below held shared) in
      rw (not_got, run_main) refl
