-- ===== src/Threads/SpinLock.antt =====
-- thread/spin-lock/main.c: the spin lock and its two threads.
use linux_programing_demo.Common.{
  ◌==◌, if◌then◌else◌, ℤ, negsuc, ℕ, ◌^◌, ◌<◌, ◌≡◌, refl, Option, none, some, arith,
}
use linux_programing_demo.Threads.LockedCounter.{
  Lock, Acquired, granted, blocks, System, Reach, step,
}
use linux_programing_demo.Threads.LockedCounter.Outcome.{stuck_complete}

-- A `pthread_spinlock_t`: it does not know its owner.
pub data SpinLock : Type 0 where
  unlocked locked_spin : SpinLock

-- `pthread_spin_lock`; a thread that spins makes no step.
pub spin_lock : ℕ → SpinLock → Acquired SpinLock
spin_lock t unlocked = granted locked_spin
spin_lock t locked_spin = blocks

-- `pthread_spin_unlock`: whoever calls it.
pub spin_unlock : ℕ → SpinLock → Option SpinLock
spin_unlock t l = some unlocked

pub spin : Lock
unfolding spin_lock spin_unlock
spin = record {
  State = SpinLock;
  free = unlocked;
  held = λ t. locked_spin;
  acquire = spin_lock;
  release = spin_unlock;
  acquire-free = λ t. refl;
  acquire-held = λ t u ne. refl;
  release-held = λ t. refl;
}

abbrev pub max_test_number : ℕ
max_test_number = 100000000

-- `main`: `pthread_spin_init` fails, or the two threads run from the unlocked lock.
pub data Start : Type 0 where
  exits : ℤ → Start
  creates : SpinLock → Start

pub main_start : ℕ → Start
main_start init = if init == 0 then creates unlocked else exits (negsuc 0)

abbrev pub Threads : ℕ → System spin max_test_number (2 ^ 63) → Type 0
Threads k s = Reach spin max_test_number (2 ^ 63) 2 k s

pub spin-Threads-count :
    (k : ℕ) (s : System spin max_test_number (2 ^ 63))
    → Threads k s
    → ((t : ℕ) → t < 2 → step spin max_test_number (2 ^ 63) t s ≡ none)
    → s.counter ≡ 200000000
spin-Threads-count k s r stuck =
    (stuck_complete spin max_test_number (2 ^ 63) 2 k s (omega arith) r stuck).1
