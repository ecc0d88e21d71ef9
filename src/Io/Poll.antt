-- ===== src/Io/Poll.antt =====
-- io/poll/main.c: the loop over `poll` of the pipe and of standard input. What `poll` and `read`
-- return are inputs; what is printed of the data is the output.
pub mod Rounds
use linux_programing_demo.Common.{leb, if◌then◌else◌, ℕ, ◌-◌, Option, none, some, List, [], ◌∷◌}
use linux_programing_demo.Io.Epoll.{ReadResult, Printed, read_and_show}

-- `poll`: -1, 0, or the results of the reads from the two descriptors, none where POLLIN is not set.
pub data Poll : Type 0 where
  poll_error poll_timeout : Poll
  polled : Option ReadResult → Option ReadResult → Poll

pub record State : Type 0 where
  pub timeout_count : ℕ
  pub printed : List Printed

-- The test of one descriptor in the `for` loop; the newest line comes first.
pub show_ready : Option ReadResult → List Printed → List Printed
show_ready none out = out
show_ready (some r) out = read_and_show r ∷ out

-- The `switch` of one round.
pub poll_round : State → Poll → State
unfolding show_ready
poll_round s poll_error = s
poll_round s poll_timeout = record s { timeout_count = s.timeout_count - 1 }
poll_round s (polled pipe input) = record s {
  printed = show_ready input (show_ready pipe s.printed);
}

-- The loop; none if the results at hand end before it does.
pub poll_loop : State → List Poll → Option State
unfolding poll_round
poll_loop s [] = none
poll_loop s (p ∷ ps) =
    let s' = poll_round s p in
    let rest = poll_loop s' ps in if leb s'.timeout_count 0 then some s' else rest

pub poll_main : List Poll → Option State
unfolding poll_loop
poll_main ps = poll_loop (record { timeout_count = 5; printed = [] }) ps
