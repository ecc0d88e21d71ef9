-- ===== src/Ipc/UnnamedSemaphore/Startup.antt =====
-- process/posix-ipc/semaphore/unnamed.c, whole: the mapping of the shared memory, `sem_init` by its
-- creator, the two loops and the removal of the name, by any number of processes. A step is one call or
-- one access to the memory. A process that starts after the name is removed makes an object of its
-- own, and is followed no further.
use linux_programing_demo.Common.{
  ltb, ◌==◌, if◌then◌else◌, ℕ, ◌+◌, ◌-◌, ◌%◌, ◌^◌, ◌<◌, ◌≡◌, Bool, true, false, not, ◌||◌, Option,
  none, some,
}
use linux_programing_demo.Threads.Family.{update}

-- Where a process stands.
pub data Pc : Type 0 where
  start : Pc  -- before `shm_open`
  truncating : Pc  -- created, before `ftruncate`
  mapping : Pc  -- created, before `mmap`
  initialising : Pc  -- created, before `sem_init`
  opened : Pc  -- an existing object, before `mmap`
  head : ℕ → Pc  -- in the loop, with its `i`
  locked : ℕ → Pc  -- before the load of `(*number)++`
  loaded : ℕ → ℕ → Pc  -- before the store
  stored : ℕ → Pc  -- before `sem_post`
  printed : ℕ → Pc  -- has printed the number, before the end
  ended : Pc
  elsewhere : Pc
  failed : Pc
  killed : Pc  -- SIGBUS: an access to an object without a size
  undefined : Pc  -- `sem_wait` of a semaphore that is not initialised

-- Who has created the object, whether its name is removed, whether it has a size, whether the
-- semaphore is initialised, its value, and `*number`.
pub record System : Type 0 where
  pub creator : Option ℕ
  pub unlinked : Bool
  pub sized : Bool
  pub ready : Bool
  pub value : ℕ
  pub number : ℕ
  pub pc : ℕ → Pc

abbrev pub init : System
init = record {
  creator = none;
  unlinked = false;
  sized = false;
  ready = false;
  value = 0;
  number = 0;
  pc = λ _. start;
}

abbrev pub go : ℕ → Pc → System → Option System
go t p s = some (record s { pc = update s.pc t p })

-- `createNew` of process `t`.
abbrev pub is_creator : ℕ → Option ℕ → Bool
is_creator t none = false
is_creator t (some u) = u == t

-- `sem_wait(sem)` at the head of the loop.
unfoldable pub wait_at : ℕ → ℕ → System → Option System
wait_at t i s =
    if not s.sized
    then go t killed s
    else if not s.ready
    then go t undefined s
    else if s.value == 0
    then none
    else some (record s { value = s.value - 1; pc = update s.pc t (locked i) })

-- The next step of process `t`, with `maxTestCount`.
unfoldable pub advance : ℕ → ℕ → Pc → System → Option System
unfolding wait_at
advance max t start s = if s.unlinked then go t elsewhere s else elim s.creator [
  | none ↦ some (record s { creator = some t; pc = update s.pc t truncating })
  | some c ↦ go t opened s
]
advance max t truncating s = some (record s { sized = true; pc = update s.pc t mapping })
advance max t mapping s = go t initialising s
advance max t initialising s =
    some (record s { ready = true; value = 1; pc = update s.pc t (head 0) })
advance max t opened s = go t (head 0) s
advance max t (head i) s = if ltb i max then wait_at t i s else go t (printed s.number) s
advance max t (locked i) s = go t (loaded i s.number) s
advance max t (loaded i v) s =
    some (record s { number = (v + 1) % 2 ^ 32; pc = update s.pc t (stored i) })
advance max t (stored i) s =
    some (record s { value = s.value + 1; pc = update s.pc t (head (i + 1)) })
advance max t (printed v) s =
    some (record s { unlinked = s.unlinked || is_creator t s.creator; pc = update s.pc t ended })
advance max t _ s = none

-- A process in a call that can fail: `shm_open`, `mmap` or `sem_init`.
abbrev pub may_fail : Pc → Bool
may_fail start = true
may_fail mapping = true
may_fail initialising = true
may_fail opened = true
may_fail _ = false

-- Runs of `n` processes. With `orderly`, no process maps an object that it has not created before its
-- semaphore is initialised.
pub data Reach (max n : ℕ) (orderly : Bool) : System → Type 0 where
  begin : Reach max n orderly init
  act :
      {s : System} (s' : System) (t : ℕ)
      → Reach max n orderly s
      → t < n
      → (orderly ≡ true → s.pc t ≡ opened → s.ready ≡ true)
      → advance max t (s.pc t) s ≡ some s'
      → Reach max n orderly s'
  refuse :
      {s : System} (s' : System) (t : ℕ)
      → Reach max n orderly s
      → t < n
      → may_fail (s.pc t) ≡ true
      → s' ≡ record s { pc = update s.pc t failed }
      → Reach max n orderly s'
