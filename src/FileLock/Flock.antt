-- ===== src/FileLock/Flock.antt =====
-- io/file_lock/flock/main.c: `_otherTest`, over a model of descriptors, open file descriptions and
-- the locks that belong to the descriptions of one file, and the reading of the arguments.
pub mod OtherTest
pub mod Program
pub mod Released
use linux_programing_demo.Common.{
  ◌==◌, if◌then◌else◌, ℕ, ◌+◌, Bool, true, false, not, ◌||◌, Option, none, some, List, [], ◌∷◌,
}
use linux_programing_demo.CString.{CString, first_char, same_string, dash_help}

-- Descriptor numbers with the descriptions that they refer to, the descriptions that hold a lock on
-- the file (with whether it is exclusive), and a bound on the numbers in use.
pub record Kernel : Type 0 where
  pub fds : List (ℕ × ℕ)
  pub holders : List (ℕ × Bool)
  pub bound : ℕ

-- The pairs of `l` whose first number is not `k`.
pub without {ℓ} : {A : Type ℓ} → ℕ → List (ℕ × A) → List (ℕ × A)
without k [] = []
without k ((j, a) ∷ l) = if j == k then without k l else (j, a) ∷ without k l

pub find {ℓ} : {A : Type ℓ} → ℕ → List (ℕ × A) → Option A
find k [] = none
find k ((j, a) ∷ l) = if j == k then some a else find k l

-- Does a descriptor refer to the description `o`?
pub referred : ℕ → List (ℕ × ℕ) → Bool
referred o [] = false
referred o ((d, o') ∷ l) = o' == o || referred o l

-- `open`: a new description and a new descriptor for it, both numbered by `bound`.
pub open_file : Kernel → ℕ × Kernel
open_file k = (k.bound, record k { fds = (k.bound, k.bound) ∷ k.fds; bound = k.bound + 1 })

-- `dup`: a new descriptor for the same description.
pub dup : ℕ → Kernel → ℕ × Kernel
unfolding find
dup d k = elim (find d k.fds) [
  | none ↦ (k.bound, k)
  | some o ↦ (k.bound, record k { fds = (k.bound, o) ∷ k.fds; bound = k.bound + 1 })
]

-- `close`: with its last descriptor a description loses its lock.
pub close : ℕ → Kernel → Kernel
unfolding find without referred
close d k = elim (find d k.fds) [
  | none ↦ k
  | some o ↦
      let left = without d k.fds in
      record k { fds = left; holders = if referred o left then k.holders else without o k.holders }
]

unfoldable pub is_nil {ℓ} : {A : Type ℓ} → List A → Bool
is_nil [] = true
is_nil (a ∷ l) = false

-- `flock(d, LOCK_EX | LOCK_NB)`: none for EWOULDBLOCK, as long as another description holds a lock.
pub lock_exclusive_nb : ℕ → Kernel → Option Kernel
unfolding find without is_nil
lock_exclusive_nb d k = elim (find d k.fds) [
  | none ↦ none
  | some o ↦
      if is_nil (without o k.holders) then some (record k { holders = (o, true) ∷ [] }) else none
]

-- `flock(d, LOCK_UN)`
pub unlock : ℕ → Kernel → Kernel
unfolding find without
unlock d k = elim (find d k.fds) [ none ↦ k | some o ↦ record k { holders = without o k.holders } ]

-- How `_otherTest` ends: -1 with the first lock refused, or 0 with whether the second one was got.
pub data TestEnd : Type 0 where
  first_refused : Kernel → TestEnd
  second : Bool → Kernel → TestEnd

-- `if (testDup) { fd3 = dup(fd1); flock(fd3, LOCK_UN); }`
pub dup_part : Bool → ℕ → Kernel → Option ℕ × Kernel
unfolding dup unlock
dup_part false fd1 k = (none, k)
dup_part true fd1 k = let (fd3, k1) = dup fd1 k in (some fd3, unlock fd3 k1)

-- `if (testClose) { close(fd1); fd1 = -1; }`
pub close_part : Bool → ℕ → Kernel → Option ℕ × Kernel
unfolding close
close_part false fd1 k = (some fd1, k)
close_part true fd1 k = (none, close fd1 k)

pub close_if : Option ℕ → Kernel → Kernel
unfolding close
close_if none k = k
close_if (some d) k = close d k

-- The part of `_otherTest` after the lock through `fd1`.
pub after_first : Bool → Bool → ℕ → ℕ → Kernel → TestEnd
unfolding dup_part close_part lock_exclusive_nb close_if
after_first test_dup test_close fd1 fd2 k =
    let (fd3, k1) = dup_part test_dup fd1 k in
    let (fd1', k2) = close_part test_close fd1 k1 in
    elim (lock_exclusive_nb fd2 k2) [
      | none ↦ second false (close_if fd3 (close_if (some fd2) (close_if fd1' k2)))
      | some k3 ↦ second true (close_if fd3 (close_if (some fd2) (close_if fd1' k3)))
    ]

-- `_otherTest`, where both calls of `open` succeed.
pub other_test : Bool → Bool → Kernel → TestEnd
unfolding open_file after_first
other_test test_dup test_close k =
    let (fd1, k1) = open_file k in
    let (fd2, k2) = open_file k1 in
    elim (lock_exclusive_nb fd1 k2) [
      | none ↦ first_refused (close fd2 (close fd1 k2))
      | some k3 ↦ after_first test_dup test_close fd1 fd2 k3
    ]

-- The arguments of `main`: a usage message, or the lock asked for and whether it may wait.
-- `strchr("sx", c)` finds the terminating NUL too.
pub data Request : Type 0 where
  usage : Request
  request : (shared nonblocking : Bool) → Request

pub in_sx : ℕ → Bool
in_sx c = c == b's' || (c == b'x' || c == 0)

abbrev second_char : CString → ℕ
second_char (a ∷ b ∷ s) = b
second_char _ = 0

-- `argv[1]` and `argv[2]` of `main`, if they are there.
pub parse_args : List CString → Request
unfolding in_sx
parse_args (file ∷ kind ∷ more) =
    if same_string file dash_help || not (in_sx (first_char kind))
    then usage
    else request (first_char kind == b's') (second_char kind == b'n')
parse_args _ = usage
