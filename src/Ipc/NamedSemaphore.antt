-- ===== src/Ipc/NamedSemaphore.antt =====
-- process/posix-ipc/semaphore/named.c: processes that try, post and try one named semaphore. A step is
-- one call. A process that starts after the name is unlinked has a semaphore of its own, and is
-- followed no further.
pub mod Balance
use linux_programing_demo.Common.{
  ◌==◌, if◌then◌else◌, ℕ, ◌+◌, ◌-◌, ◌<◌, ◌≡◌, Bool, true, false, ◌||◌, Option, none, some, List, [],
  ◌∷◌, ◌++◌,
}
use linux_programing_demo.Threads.Family.{update}

-- Where a process stands, with the results of its calls of `sem_trywait`; the prints of the value are
-- before and after them.
pub data Pc : Type 0 where
  start : Pc
  show_first : Bool → Pc  -- `createNew`
  try_first : Bool → Pc
  post : Bool → Bool → Pc
  show_second : Bool → Bool → Pc
  try_second : Bool → Bool → Pc
  show_last : Bool → Bool → Bool → Pc
  closing : Bool → Bool → Bool → Pc
  ended : Bool → Bool → Pc
  elsewhere : Pc
  failed : Pc

-- What a process prints of the semaphore.
pub data Line : Type 0 where
  value_line : ℕ → ℕ → Line
  trywait_line : ℕ → Bool → Line

pub record System : Type 0 where
  pub exists : Bool
  pub unlinked : Bool
  pub value : ℕ
  pub lines : List Line
  pub pc : ℕ → Pc

abbrev pub init : System
init = record { exists = false; unlinked = false; value = 0; lines = []; pc = λ _. start }

-- `sem_trywait`: whether it succeeds, and the value after it.
abbrev pub trywait : ℕ → Bool × ℕ
trywait v = if v == 0 then (false, v) else (true, v - 1)

abbrev pub go : ℕ → Pc → System → Option System
go t p s = some (record s { pc = update s.pc t p })

-- `_printSemValue`, of an open semaphore.
abbrev pub print_value : ℕ → Pc → System → Option System
print_value t p s =
    some (record s { lines = s.lines ++ value_line t s.value ∷ []; pc = update s.pc t p })

abbrev pub try_then : ℕ → Pc → Bool × ℕ → System → Option System
try_then t p r s =
    some
      (record s { value = r.1; lines = s.lines ++ trywait_line t r.0 ∷ []; pc = update s.pc t p })

-- The next call of process `t`. `sem_post` of a value below SEM_VALUE_MAX.
unfoldable pub advance : ℕ → Pc → System → Option System
advance t start s =
    if s.unlinked
    then go t elsewhere s
    else if s.exists
    then go t (show_first false) s
    else some (record s { exists = true; value = 0; pc = update s.pc t (show_first true) })
advance t (show_first c) s = print_value t (try_first c) s
advance t (try_first c) s = let r = trywait s.value in try_then t (post c r.0) r s
advance t (post c a) s =
    some (record s { value = s.value + 1; pc = update s.pc t (show_second c a) })
advance t (show_second c a) s = print_value t (try_second c a) s
advance t (try_second c a) s = let r = trywait s.value in try_then t (show_last c a r.0) r s
advance t (show_last c a b) s = print_value t (closing c a b) s
advance t (closing c a b) s =
    some (record s { unlinked = s.unlinked || c; pc = update s.pc t (ended a b) })
advance t (ended a b) s = none
advance t elsewhere s = none
advance t failed s = none

-- Runs of `n` processes; `refuse` is a `sem_open` that fails.
pub data Reach (n : ℕ) : System → Type 0 where
  begin : Reach n init
  act :
      {s : System} (s' : System) (t : ℕ)
      → Reach n s
      → t < n
      → advance t (s.pc t) s ≡ some s'
      → Reach n s'
  refuse :
      {s : System} (s' : System) (t : ℕ)
      → Reach n s
      → t < n
      → s.pc t ≡ start
      → s' ≡ record s { pc = update s.pc t failed }
      → Reach n s'
