-- ===== src/Ipc/SysvSemaphore.antt =====
-- process/system-v-ipc/semaphore/main.c: processes that create or open one semaphore, wait, post,
-- wait again and exit. A step is one system call. The semaphore is never removed, so a call on it
-- fails only where the code tests for it: `semget` may be refused, and an opener gives up when it
-- has seen `sem_otime` 0 three times.
pub mod Exclusion
use linux_programing_demo.Common.{
  ltb, ◌==◌, if◌then◌else◌, ℕ, zero, suc, ◌+◌, ◌-◌, ◌<◌, ◌≡◌, Bool, true, false, Option, none, some,
}
use linux_programing_demo.Threads.Family.{update}

-- Where a process stands.
pub data Pc : Type 0 where
  start : Pc  -- before `semget(key, 1, IPC_CREAT | IPC_EXCL | ...)`
  creating : Pc  -- created, before `semctl(semId, 0, SETVAL, 0)`
  setting : Pc  -- before `semop` with `initValue`
  opening : ℕ → Pc  -- opened, before IPC_STAT, with the tries left after it
  ready : Pc  -- `_semCreateOrGet` returned the id, before the first `_semWait`
  holding : Pc  -- before `_semPost`
  posted : Pc  -- before the second `_semWait`
  holding_again : Pc  -- before `_trySemWait`
  tried : Pc  -- before the exit
  exited : Pc
  failed : Pc  -- `_semCreateOrGet` returned -1

-- The one semaphore of the key: whether it exists, its value, whether `sem_otime` is set.
pub record System : Type 0 where
  pub born : Bool
  pub value : ℕ
  pub otime : Bool
  pub pc : ℕ → Pc

abbrev pub init : System
init = record { born = false; value = 0; otime = false; pc = λ t. start }

abbrev pub go : ℕ → Pc → System → Option System
go t p s = some (record s { pc = update s.pc t p })

-- `semop` with -1: it waits while the value is 0.
unfoldable pub semop_wait : ℕ → Pc → System → Option System
semop_wait t p s =
    if s.value == 0
    then none
    else some (record s { value = s.value - 1; otime = true; pc = update s.pc t p })

-- `semop` with `k` > 0.
unfoldable pub semop_add : ℕ → ℕ → Pc → System → Option System
semop_add k t p s = some (record s { value = s.value + k; otime = true; pc = update s.pc t p })

-- `_trySemWait` at a value: what it returns, and what it prints that it returns. It asks for the
-- value and does not change it.
pub try_sem_wait : ℕ → Bool × Bool
try_sem_wait v = (ltb 1 v, ltb 0 v)

-- What SEM_UNDO adds to the value at the exit: the sum of -sem_op over the calls made, which are
-- -1, +1 and -1.
abbrev pub undo_at_exit : ℕ
undo_at_exit = 1

-- The next system call of process `t`, by where it stands; none if it waits or has ended.
unfoldable pub advance : ℕ → Pc → System → Option System
unfolding semop_wait semop_add
advance t start s =
    if s.born
    then go t (opening 2) s
    else some (record s { born = true; value = 0; otime = false; pc = update s.pc t creating })
advance t creating s = some (record s { value = 0; pc = update s.pc t setting })
advance t setting s = semop_add 1 t ready s
advance t (opening zero) s = if s.otime then go t ready s else go t failed s
advance t (opening (suc k)) s = if s.otime then go t ready s else go t (opening k) s
advance t ready s = semop_wait t holding s
advance t holding s = semop_add 1 t posted s
advance t posted s = semop_wait t holding_again s
advance t holding_again s = go t tried s
advance t tried s = some (record s { value = s.value + undo_at_exit; pc = update s.pc t exited })
advance t exited s = none
advance t failed s = none

pub data Step (n : ℕ) (s s' : System) : Type 0 where
  act : (t : ℕ) → t < n → advance t (s.pc t) s ≡ some s' → Step n s s'
  refuse :
      (t : ℕ) → t < n → s.pc t ≡ start → s' ≡ record s { pc = update s.pc t failed } → Step n s s'

pub data Reach (n : ℕ) : System → Type 0 where
  begin : Reach n init
  next : {s : System} (s' : System) → Reach n s → Step n s s' → Reach n s'
