-- ===== src/Threads/Cancel.antt =====
-- thread/cancel/main.c: a thread that disables its cancellation for its first sleep, and `main`, which
-- cancels and joins it. A step is one call that matters to the cancellation; `t` is the number of
-- rounds that the thread is given. The results of `main`'s calls are inputs.
pub mod Result
use linux_programing_demo.Common.{
  ltb, ◌==◌, if◌then◌else◌, ℕ, ◌+◌, ◌≡◌, Bool, true, false, ◌&&◌, Option, none, some,
}

-- `_func`: before the calls that set the type and the state, before the printf of round `i`, in its
-- sleep, before the call that enables the cancellation again, and before the last printf.
pub data Child : Type 0 where
  absent : Child
  set_type : Child
  set_state : Child
  head : ℕ → Child
  asleep : ℕ → Child
  enabling : ℕ → Child
  last_print : Child
  returned : ℕ → Child
  cancelled : Child

-- `main`: the last two are the texts at its end, none being "child was cancelled", and the return of -1.
pub data Main : Type 0 where
  creating : Main
  sleeping : Main
  cancelling : Main
  joining : Main
  reported : Option ℕ → Main
  gave_up : Main

pub record System : Type 0 where
  pub enabled : Bool
  pub pending : Bool
  pub child : Child
  pub main : Main

abbrev pub init : System
init = record { enabled = true; pending = false; child = absent; main = creating }

-- A cancellation is acted on in `sleep`, where it is certain, and it may be in a `printf`.
abbrev pub is_point : Child → Bool
is_point set_state = true
is_point (head i) = true
is_point (asleep i) = true
is_point last_print = true
is_point _ = false

-- The next step of `_func`, when it is not cancelled.
unfoldable pub func : ℕ → Child → System → Option System
func t set_type s = some (record s { child = set_state })
func t set_state s = some (record s { enabled = false; child = head 0 })
func t (head i) s = some (record s { child = if ltb i t then asleep i else last_print })
func t (asleep i) s =
    if s.enabled && s.pending
    then none
    else some (record s { child = if i == 0 then enabling i else head (i + 1) })
func t (enabling i) s = some (record s { enabled = true; child = head (i + 1) })
func t last_print s = some (record s { child = returned t })
func t _ s = none

unfoldable pub cancel : Child → System → Option System
cancel c s =
    if s.enabled && s.pending && is_point c then some (record s { child = cancelled }) else none

-- The next step of `main`, and whether its call succeeds.
unfoldable pub master : Bool → Main → System → Option System
master ok creating s =
    some
      (if ok then record s { child = set_type; main = sleeping } else record s { main = gave_up })
master ok sleeping s = some (record s { main = cancelling })
master ok cancelling s =
    some (if ok then record s { pending = true; main = joining } else record s { main = gave_up })
master ok joining s = elim s.child [
  | returned v ↦ some (record s { main = if ok then reported (some v) else gave_up })
  | cancelled ↦ some (record s { main = if ok then reported none else gave_up })
  | _ ↦ none
]
master ok (reported r) s = none
master ok gave_up s = none

-- The process is gone once `main` has returned.
abbrev pub is_running : Main → Bool
is_running (reported r) = false
is_running gave_up = false
is_running _ = true

-- The runs from a state.
pub data Run (t : ℕ) (s0 : System) : System → Type 0 where
  here : Run t s0 s0
  act :
      {s : System} (s' : System)
      → Run t s0 s
      → is_running s.main ≡ true
      → func t s.child s ≡ some s'
      → Run t s0 s'
  stop :
      {s : System} (s' : System)
      → Run t s0 s
      → is_running s.main ≡ true
      → cancel s.child s ≡ some s'
      → Run t s0 s'
  lead :
      {s : System} (s' : System) (ok : Bool)
      → Run t s0 s
      → master ok s.main s ≡ some s'
      → Run t s0 s'
