-- ===== src/Ipc/MsgQueue/Delivery.antt =====
-- What becomes of the messages.
use linux_programing_demo.Common.{
  if◌then◌else◌, length, All, ℕ, ◌+◌, ◌≤◌, ◌≡◌, Bool, true, false, Option, none, some, List, [],
}
use linux_programing_demo.Threads.Family.{total}
use linux_programing_demo.Ipc.MsgQueue.{
  Pc, start, sending, receiving, sent, received, ended, failed, Line, receive_line, System, message,
}

abbrev one : Bool → ℕ
one b = if b then 1 else 0

abbrev pub sends : Pc → ℕ
sends sent = 1
sends (ended a b) = one a
sends _ = 0

abbrev pub receives : Pc → ℕ
receives (received ok) = one ok
receives (ended a b) = one b
receives _ = 0

abbrev pub in_queue : Option (List (List ℕ)) → List (List ℕ)
in_queue none = []
in_queue (some q) = q

-- A line shows a message only whole.
abbrev pub IsShown : Line → Type 0
IsShown (receive_line m true) = m ≡ message
IsShown (receive_line m false) = m ≡ []
IsShown _ = Unit

abbrev is_open : Pc → Bool
is_open start = false
is_open failed = false
is_open _ = true

abbrev is_made : Option (List (List ℕ)) → Bool
is_made none = false
is_made (some q) = true

record Inv (max_msgs n : ℕ) (s : System) : Type 0 where
  balance : length (in_queue s.queue) + total receives n s.pc ≡ total sends n s.pc
  bounded : length (in_queue s.queue) ≤ max_msgs
  messages : All (λ m. m ≡ message) (in_queue s.queue)
  shown : All IsShown s.lines
  made : (t : ℕ) → is_open (s.pc t) ≡ true → is_made s.queue ≡ true

-- What holds of the queue and the lines after a step.
abbrev Ensures : Option System → Type 0
Ensures none = Unit
Ensures (some s) = All (λ m. m ≡ message) (in_queue s.queue) × All IsShown s.lines

-- A process that can be stuck: it is at its end, or in a call that blocks.
abbrev pub Waits : ℕ → List (List ℕ) → Pc → Type 0
Waits max_msgs q sending = length q ≡ max_msgs
Waits max_msgs q (receiving false) = q ≡ []
Waits max_msgs q (ended a b) = Unit
Waits max_msgs q failed = Unit
Waits max_msgs q _ = ⊥
