-- ===== src/Threads/Detached.antt =====
-- thread/basic/main.c: `_init`, run once by `main`, two threads in `_func`, of which the second is
-- detached, and `main`, which joins the first. A step is one call with the printf before it, or a
-- printf alone; the results of `main`'s calls are inputs. `pthread_once` runs `_init` before it returns.
pub mod Outcome
use linux_programing_demo.Common.{
  ◌==◌, if◌then◌else◌, ℤ, pos, negsuc, ℕ, ◌≡◌, Bool, true, false, Option, none, some, List, [], ◌∷◌,
}

-- `_func`, with its argument.
pub data Child : Type 0 where
  absent : Child
  fresh : ℕ → Child
  asleep : ℕ → Child
  returned : ℕ → Child

-- `main`, before each of its calls, `_init` being within the first, and before the last printf.
pub data Main : Type 0 where
  calling_once : Main
  init_asleep : Main
  creating_first : Main
  creating_second : Main
  detaching : Main
  joining : Main
  reporting : ℕ → Main
  leaving : Main
  exited : ℤ → Main

pub data Line : Type 0 where
  before_sleep : Line
  after_sleep : Line
  will_sleep : ℕ → Line
  sleep_finish : ℕ → Line
  once_failed : ℤ → Line
  create_failed : ℤ → Line
  detach_failed : ℤ → Line
  join_failed : ℤ → Line
  child_return : ℕ → Line

-- The lines are the newest first.
pub record System : Type 0 where
  pub first : Child
  pub second : Child
  pub detached : Bool
  pub main : Main
  pub lines : List Line

abbrev pub init : System
init = record { first = absent; second = absent; detached = false; main = calling_once; lines = [] }

abbrev pub is_zero : ℤ → Bool
is_zero (pos n) = n == 0
is_zero (negsuc n) = false

-- The next state of a thread, and its line.
unfoldable pub func : Child → Option (Child × Line)
func absent = none
func (fresh t) = some (asleep t, will_sleep t)
func (asleep t) = some (returned t, sleep_finish t)
func (returned t) = none

abbrev pub fail : Line → System → System
fail l s = record s { main = exited (negsuc 0); lines = l ∷ s.lines }

-- The next step of `main`; `ret` is its call's result.
unfoldable pub master : ℤ → Main → System → Option System
master ret calling_once s = some (
    if is_zero ret
    then record s { main = init_asleep; lines = before_sleep ∷ s.lines }
    else fail (once_failed ret) s)
master ret init_asleep s = some (record s { main = creating_first; lines = after_sleep ∷ s.lines })
master ret creating_first s = some (
    if is_zero ret
    then record s { first = fresh 3; main = creating_second }
    else fail (create_failed ret) s)
master ret creating_second s = some (
    if is_zero ret
    then record s { second = fresh 5; main = detaching }
    else fail (create_failed ret) s)
master ret detaching s = some (
    if is_zero ret
    then record s { detached = true; main = joining }
    else fail (detach_failed ret) s)
master ret joining s =
    if is_zero ret
    then elim s.first [ returned t ↦ some (record s { main = reporting t }) | _ ↦ none ]
    else some (fail (join_failed ret) s)
master ret (reporting t) s = some (record s { main = leaving; lines = child_return t ∷ s.lines })
master ret leaving s = some (record s { main = exited (pos 0) })
master ret (exited r) s = none

-- The process, and with it both threads, is gone once `main` has returned.
abbrev pub is_running : Main → Bool
is_running (exited r) = false
is_running _ = true

-- The runs of the process.
pub data Reach : System → Type 0 where
  begin : Reach init
  lead : {s : System} (s' : System) (ret : ℤ) → Reach s → master ret s.main s ≡ some s' → Reach s'
  act_first :
      {s : System} (c : Child) (l : Line)
      → Reach s
      → is_running s.main ≡ true
      → func s.first ≡ some (c, l)
      → Reach (record s { first = c; lines = l ∷ s.lines })
  act_second :
      {s : System} (c : Child) (l : Line)
      → Reach s
      → is_running s.main ≡ true
      → func s.second ≡ some (c, l)
      → Reach (record s { second = c; lines = l ∷ s.lines })
