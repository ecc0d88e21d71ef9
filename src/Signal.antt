-- ===== src/Signal.antt =====
-- signal/main.c: `main`, which ignores SIGINT, then handles it, and a SIGINT that may come before any
-- of its steps. A step is one call with the printf next to it; the handler is one step. The results of
-- the calls are inputs.
pub mod Phases
use linux_programing_demo.Common.{
  ◌+◌, if◌then◌else◌, ℤ, pos, negsuc, ℕ, ◌≡◌, Bool, true, false, Option, none, some, List, [], ◌∷◌,
}

-- What the kernel does at a SIGINT.
pub data Disposition : Type 0 where
  by_default : Disposition  -- ends the process
  ignored : Disposition
  handled : Disposition  -- calls `signalHandler`

-- The three sleeps.
pub data Phase : Type 0 where
  first : Phase
  second : Phase
  third : Phase

-- The places of `main`: before each of the three calls, in each `sleep`, and before each printf.
pub data Main : Type 0 where
  ignoring : Main
  handling : Main
  acting : Main
  asleep : Phase → Main
  awake : Phase → Main
  exited : ℤ → Main
  killed : Main

pub data Line : Type 0 where
  received : Line
  after_sleep : Phase → Line
  signal_failed : ℤ → Line
  sigaction_failed : ℤ → Line
  old_flags : ℤ → Line

-- The lines are the newest first.
pub record System : Type 0 where
  pub disposition : Disposition
  pub main : Main
  pub lines : List Line

abbrev pub init : System
init = record { disposition = by_default; main = ignoring; lines = [] }

-- `main` after the printf that follows the sleep `k`.
abbrev pub after : Phase → Main
after first = handling
after second = acting
after third = exited (pos 0)

abbrev pub fail : Line → System → System
fail l s = record s { main = exited (negsuc 0); lines = l ∷ s.lines }

-- The next step of `main`: whether the call succeeds, and the `errno` or the old flags it gives.
unfoldable pub step : Bool → ℤ → Main → System → Option System
step ok v ignoring s = some (
    if ok
    then record s { disposition = ignored; main = asleep first }
    else fail (signal_failed v) s)
step ok v handling s = some (
    if ok
    then record s { disposition = handled; main = asleep second }
    else fail (signal_failed v) s)
step ok v acting s = some (
    if ok
    then record s { disposition = handled; main = asleep third; lines = old_flags v ∷ s.lines }
    else fail (sigaction_failed v) s)
step ok v (asleep k) s = some (record s { main = awake k })
step ok v (awake k) s = some (record s { main = after k; lines = after_sleep k ∷ s.lines })
step ok v (exited r) s = none
step ok v killed s = none

-- A handler that returns ends the `sleep`, whatever the flags of its action are.
abbrev pub wake : Main → Main
wake (asleep k) = awake k
wake m = m

-- A SIGINT comes.
unfoldable pub arrive : Disposition → System → System
arrive by_default s = record s { main = killed }
arrive ignored s = s
arrive handled s = record s { main = wake s.main; lines = received ∷ s.lines }

abbrev pub is_running : Main → Bool
is_running (exited r) = false
is_running killed = false
is_running _ = true

pub data Reach : System → Type 0 where
  begin : Reach init
  next :
      {s : System} (s' : System) (ok : Bool) (v : ℤ)
      → Reach s
      → step ok v s.main s ≡ some s'
      → Reach s'
  interrupt : {s : System} → Reach s → is_running s.main ≡ true → Reach (arrive s.disposition s)
