-- ===== src/Ipc/SharedMemory.antt =====
-- process/posix-ipc/shared-memory/main.c and process/system-v-ipc/shared-memory/main.c: processes that
-- count in one shared `int`. A step is one system call or one access to it. Both programs have the
-- same states; the first one creates an object without a size and sets the `int`, the second one
-- gets a segment of zeros. A process that starts after the object's name is removed makes an object
-- of its own, and is followed no further.
pub mod Sysv
pub mod LostCounts
use linux_programing_demo.Common.{
  ltb, ◌==◌, if◌then◌else◌, ℕ, ◌+◌, ◌-◌, ◌%◌, ◌^◌, ◌<◌, ◌≡◌, Bool, true, false, ◌||◌, Option, none,
  some,
}
use linux_programing_demo.Threads.Family.{update}

-- Where a process stands.
pub data Pc : Type 0 where
  start : Pc  -- before `shm_open`, or `shmget`
  truncating : Pc  -- created, before `ftruncate`
  mapping : Pc  -- created, before `mmap`
  setting : Pc  -- created, before `atomicSetValue(mapAddress, 0)`
  opened : Pc  -- an existing object, before `mmap`, or `shmat`
  counting : ℕ → Pc  -- in the loop, with its `i`
  printed : ℕ → Pc  -- has printed the number, before the end
  ended : Pc
  elsewhere : Pc
  failed : Pc
  killed : Pc  -- SIGBUS: an access to an object without a size

-- Who has created the object, whether its name is removed, whether it has a size, and its `int`.
pub record System : Type 0 where
  pub creator : Option ℕ
  pub unlinked : Bool
  pub sized : Bool
  pub number : ℕ
  pub pc : ℕ → Pc

abbrev pub init : System
init = record { creator = none; unlinked = false; sized = false; number = 0; pc = λ _. start }

abbrev pub go : ℕ → Pc → System → Option System
go t p s = some (record s { pc = update s.pc t p })

-- `atomicAddValue(number, 1)`, of an `int`.
abbrev pub u32 : ℕ → ℕ
u32 n = n % 2 ^ 32

-- The loop of both programs, for `max` rounds, and the printing after it.
unfoldable pub count : ℕ → ℕ → ℕ → System → Option System
count max t i s =
    if s.sized
    then (if ltb i max
        then some (record s { number = u32 (s.number + 1); pc = update s.pc t (counting (i + 1)) })
        else go t (printed s.number) s)
    else go t killed s

-- `createNew` of process `t`.
abbrev pub is_creator : ℕ → Option ℕ → Bool
is_creator t none = false
is_creator t (some u) = u == t

-- The next step of process `t` of the POSIX program; the creator unlinks the name.
unfoldable pub advance : ℕ → ℕ → Pc → System → Option System
unfolding count
advance max t start s = if s.unlinked then go t elsewhere s else elim s.creator [
  | none ↦ some (record s { creator = some t; pc = update s.pc t truncating })
  | some c ↦ go t opened s
]
advance max t truncating s = some (record s { sized = true; pc = update s.pc t mapping })
advance max t mapping s = go t setting s
advance max t setting s = some (record s { number = 0; pc = update s.pc t (counting 0) })
advance max t opened s = go t (counting 0) s
advance max t (counting i) s = count max t i s
advance max t (printed v) s =
    some (record s { unlinked = s.unlinked || is_creator t s.creator; pc = update s.pc t ended })
advance max t _ s = none

-- The next step of the System V program: the segment has its size and zeros from `shmget` on, and
-- every process removes it at its end.
unfoldable pub advance_sysv : ℕ → ℕ → Pc → System → Option System
unfolding count
advance_sysv max t start s = if s.unlinked then go t elsewhere s else elim s.creator [
  | none ↦ some (record s { creator = some t; sized = true; number = 0; pc = update s.pc t opened })
  | some c ↦ go t opened s
]
advance_sysv max t opened s = go t (counting 0) s
advance_sysv max t (counting i) s = count max t i s
advance_sysv max t (printed v) s = some (record s { unlinked = true; pc = update s.pc t ended })
advance_sysv max t _ s = none

-- The places whose next step can fail: the openings, and the mappings of either kind of process.
abbrev pub may_fail : Pc → Bool
may_fail start = true
may_fail mapping = true
may_fail opened = true
may_fail _ = false

-- Runs of `n` processes with either step function; `refuse` is an opening or a mapping that fails.
pub data Reach (next_step : ℕ → Pc → System → Option System) (n : ℕ) : System → Type 0 where
  begin : Reach next_step n init
  act :
      {s : System} (s' : System) (t : ℕ)
      → Reach next_step n s
      → t < n
      → next_step t (s.pc t) s ≡ some s'
      → Reach next_step n s'
  refuse :
      {s : System} (s' : System) (t : ℕ)
      → Reach next_step n s
      → t < n
      → may_fail (s.pc t) ≡ true
      → s' ≡ record s { pc = update s.pc t failed }
      → Reach next_step n s'
