-- ===== src/FileLock/Flock/Program.antt =====
-- `main` of io/file_lock/flock/main.c: the lock, its release, and the three calls of `_otherTest`.
use linux_programing_demo.Common.{
  if◌then◌else◌, ℕ, Bool, true, false, not, ◌&&◌, Option, none, some, List, [], ◌∷◌,
}
use linux_programing_demo.CString.{CString}
use linux_programing_demo.FileLock.Flock.{
  Kernel, without, find, open_file, close, is_nil, unlock, TestEnd, first_refused, second,
  other_test, usage, request, parse_args,
}

-- No lock of the list is exclusive.
unfoldable pub all_shared : List (ℕ × Bool) → Bool
all_shared [] = true
all_shared ((o, exclusive) ∷ l) = not exclusive && all_shared l

-- `flock(d, LOCK_SH)` and `flock(d, LOCK_EX)`: none while another description holds a lock against it.
unfoldable pub take_lock : Bool → ℕ → Kernel → Option Kernel
unfolding find without is_nil all_shared
take_lock shared d k = elim (find d k.fds) [
  | none ↦ none
  | some o ↦
      let others = without o k.holders in
      if (if shared then all_shared others else is_nil others)
      then some (record k { holders = (o, not shared) ∷ others })
      else none
]

abbrev pub kernel_of : TestEnd → Kernel
kernel_of (first_refused k) = k
kernel_of (second got k) = k

-- What `main` comes to: -1 after a usage, an `open` that fails or a lock refused; or it waits for the
-- lock; or the three tests.
pub data MainEnd : Type 0 where
  usage_shown : MainEnd
  open_failed : MainEnd
  already_locked : Kernel → MainEnd
  waits : Kernel → MainEnd
  tested : TestEnd → TestEnd → TestEnd → MainEnd

-- The calls of `_otherTest` at the end.
unfoldable pub test_all : Kernel → MainEnd
test_all k =
    let first = other_test false false k in
    let next = other_test true false (kernel_of first) in
    tested first next (other_test false true (kernel_of next))

-- The lock is held for the time of the sleep, `flock(fd, LOCK_UN)` succeeds, and `fd` is closed.
unfoldable pub run_main : Bool → Bool → Kernel → MainEnd
unfolding test_all
run_main shared nonblocking k =
    let (fd, k1) = open_file k in
    elim (take_lock shared fd k1) [
      | none ↦ if nonblocking then already_locked k1 else waits k1
      | some k2 ↦ test_all (close fd (unlock fd k2))
    ]

unfoldable pub main : List CString → Bool → Kernel → MainEnd
unfolding run_main
main args opens k = elim (parse_args args) [
  | usage ↦ usage_shown
  | request shared nonblocking ↦ if opens then run_main shared nonblocking k else open_failed
]
