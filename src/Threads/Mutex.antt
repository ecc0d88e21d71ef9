-- ===== src/Threads/Mutex.antt =====
-- thread/mutex/main.c: the recursive mutex that `main` makes and tries, and its two threads.
use linux_programing_demo.Common.{
  leb, ◌==◌, if◌then◌else◌, ℤ, negsuc, ℕ, ◌+◌, ◌-◌, ◌^◌, ◌<◌, ◌≡◌, refl, ◌≢◌, Bool, true, false,
  Option, none, some, arith,
}
use linux_programing_demo.Threads.LockedCounter.{
  Lock, Acquired, granted, blocks, refused, System, Reach, step,
}
use linux_programing_demo.Threads.LockedCounter.Outcome.{stuck_complete}

-- A PTHREAD_MUTEX_RECURSIVE mutex: who owns it, and how many times.
pub record Mutex : Type 0 where
  pub owner : Option ℕ
  pub depth : ℕ

abbrev pub unlocked : Mutex
unlocked = record { owner = none; depth = 0 }

abbrev pub owned_by : ℕ → Mutex
owned_by t = record { owner = some t; depth = 1 }

-- `pthread_mutex_lock`
unfoldable pub mutex_lock : ℕ → Mutex → Acquired Mutex
mutex_lock t m = elim m.owner [
  | none ↦ granted (owned_by t)
  | some u ↦ if u == t then granted (record m { depth = m.depth + 1 }) else blocks
]

-- `pthread_mutex_unlock`: EPERM for a caller that does not own the mutex.
unfoldable pub mutex_unlock : ℕ → Mutex → Option Mutex
mutex_unlock t m = elim m.owner [
  | none ↦ none
  | some u ↦
      if u == t
      then (if leb m.depth 1 then some unlocked else some (record m { depth = m.depth - 1 }))
      else none
]

abbrev pub ebusy : ℕ
ebusy = 16

-- `pthread_mutex_trylock`
pub mutex_trylock : ℕ → Mutex → Acquired Mutex
mutex_trylock t m = elim (mutex_lock t m) [ granted m' ↦ granted m' | _ ↦ refused ebusy ]

pub mutex-acquire_held : (t u : ℕ) → t ≢ u → mutex_lock t (owned_by u) ≡ blocks
unfolding mutex_lock
mutex-acquire_held t u ne = ground arith

pub mutex-release_held : (t : ℕ) → mutex_unlock t (owned_by t) ≡ some unlocked
unfolding mutex_unlock
mutex-release_held t = ground arith

unfoldable pub mutex : Lock
unfolding mutex_lock
mutex = record {
  State = Mutex;
  free = unlocked;
  held = owned_by;
  acquire = mutex_lock;
  release = mutex_unlock;
  acquire-free = λ t. refl;
  acquire-held = mutex-acquire_held;
  release-held = mutex-release_held;
}

-- How `main` goes on before it creates its threads: it exits, or blocks, or creates them with
-- the mutex in some state; the flag is whether the try lock succeeded.
pub data Start : Type 0 where
  exits : ℤ → Start
  hangs : Start
  creates : Mutex → Bool → Start

-- An unlocking call whose result `main` drops.
pub unlock_dropped : ℕ → Mutex → Mutex
unlock_dropped t m = elim (mutex_unlock t m) [ none ↦ m | some m' ↦ m' ]

-- The locking, the try and the unlocking in `main`, of the thread `t`.
pub self_check : ℕ → Mutex → Start
unfolding mutex_trylock unlock_dropped
self_check t m = elim (mutex_lock t m) [
  | granted m1 ↦ elim (mutex_trylock t m1) [
    | granted m2 ↦ creates (unlock_dropped t (unlock_dropped t m2)) true
    | _ ↦ creates (unlock_dropped t m1) false
  ]
  | blocks ↦ hangs
  | refused e ↦ exits (negsuc 0)
]

-- `main` up to `pthread_create`, by the results of the three calls that set the mutex up.
pub main_start : ℕ → ℕ → ℕ → ℕ → Start
unfolding self_check
main_start t attr_init attr_settype mutex_init =
    if attr_init == 0
    then (if attr_settype == 0
        then (if mutex_init == 0 then self_check t unlocked else exits (negsuc 0))
        else exits (negsuc 0))
    else exits (negsuc 0)

abbrev pub max_test_number : ℕ
max_test_number = 10000000

-- The two threads of `main`; a `long` holds any count below 2 ^ 63.
abbrev pub Threads : ℕ → System mutex max_test_number (2 ^ 63) → Type 0
Threads k s = Reach mutex max_test_number (2 ^ 63) 2 k s

-- `main` either exits with -1, exactly when one of the three set-up calls fails, or it creates its
-- threads with the mutex unlocked again, having locked it twice.
pub main_start_lem :
    (t attr_init attr_settype mutex_init : ℕ)
    → main_start t attr_init attr_settype mutex_init ≡ (
        if attr_init + attr_settype + mutex_init == 0
        then creates unlocked true
        else exits (negsuc 0))
unfolding main_start mutex_lock mutex_unlock
main_start_lem t a b c = ground arith

-- When its two threads can move no more, the counter that `main` prints is 20000000.
pub Threads-count :
    (k : ℕ) (s : System mutex max_test_number (2 ^ 63))
    → Threads k s
    → ((t : ℕ) → t < 2 → step mutex max_test_number (2 ^ 63) t s ≡ none)
    → s.counter ≡ 20000000
Threads-count k s r stuck =
    (stuck_complete mutex max_test_number (2 ^ 63) 2 k s (omega arith) r stuck).1
