-- ===== src/Ipc/MsgQueue.antt =====
-- process/posix-ipc/msg-queue/main.c: processes that each send or receive one message of one queue.
-- A step is one call. Nobody removes the queue; `max_msgs` is the system's bound on its messages, all
-- of which have priority 0.
pub mod Delivery
use linux_programing_demo.Common.{
  ltb, ◌==◌, if◌then◌else◌, length, ℕ, ◌+◌, ◌-◌, ◌<◌, ◌≡◌, Bool, true, false, Option, none, some,
  List, [], ◌∷◌, ◌++◌,
}
use linux_programing_demo.Threads.Family.{update}

-- Where a process stands, with `createNew`: its descriptor is for writing only if it is set.
pub data Pc : Type 0 where
  start : Pc
  opened : Bool → Pc  -- before `mq_getattr`
  sending : Pc
  receiving : Bool → Pc
  sent : Pc
  received : Bool → Pc  -- whether `mq_receive` succeeded
  ended : Bool → Bool → Pc  -- which of the two the process has done
  failed : Pc

pub data Line : Type 0 where
  create_line : Line
  open_line : Line
  attribute_line : ℕ → Line  -- curMsgs
  send_line : Line  -- "mq_send [abc] success"
  receive_line : List ℕ → Bool → Line

-- The queue is none before the first `mq_open`.
pub record System : Type 0 where
  pub queue : Option (List (List ℕ))
  pub lines : List Line
  pub pc : ℕ → Pc

abbrev pub init : System
init = record { queue = none; lines = []; pc = λ _. start }

abbrev pub message : List ℕ
message = b'a' ∷ b'b' ∷ b'c' ∷ []

-- A step that prints, and leaves the queue as it is given.
abbrev pub go : ℕ → Pc → Line → Option (List (List ℕ)) → System → Option System
go t p line q s = some (record s { queue = q; lines = s.lines ++ line ∷ []; pc = update s.pc t p })

-- The next step of process `t`: `mq_send` blocks on a full queue, `mq_receive` on an empty one, and on a
-- descriptor for writing it fails.
unfoldable pub advance : ℕ → ℕ → Pc → System → Option System
advance max_msgs t start s = elim s.queue [
  | none ↦ go t (opened true) create_line (some []) s
  | some q ↦ go t (opened false) open_line (some q) s
]
advance max_msgs t (opened c) s = elim s.queue [
  | none ↦ none
  | some q ↦
      go t (if length q == 0 then sending else receiving c) (attribute_line (length q)) (some q) s
]
advance max_msgs t sending s = elim s.queue [
  | none ↦ none
  | some q ↦
      if ltb (length q) max_msgs then go t sent send_line (some (q ++ message ∷ [])) s else none
]
advance max_msgs t (receiving true) s = go t (received false) (receive_line [] false) s.queue s
advance max_msgs t (receiving false) s = elim s.queue [
  | none ↦ none
  | some [] ↦ none
  | some (m ∷ q) ↦ go t (received true) (receive_line m true) (some q) s
]
advance max_msgs t sent s = some (record s { pc = update s.pc t (ended true false) })
advance max_msgs t (received ok) s = some (record s { pc = update s.pc t (ended false ok) })
advance max_msgs t (ended a b) s = none
advance max_msgs t failed s = none

-- Runs of `n` processes; `refuse`: both calls of `mq_open` fail.
pub data Reach (max_msgs n : ℕ) : System → Type 0 where
  begin : Reach max_msgs n init
  act :
      {s : System} (s' : System) (t : ℕ)
      → Reach max_msgs n s
      → t < n
      → advance max_msgs t (s.pc t) s ≡ some s'
      → Reach max_msgs n s'
  refuse :
      {s : System} (s' : System) (t : ℕ)
      → Reach max_msgs n s
      → t < n
      → s.pc t ≡ start
      → s' ≡ record s { pc = update s.pc t failed }
      → Reach max_msgs n s'
