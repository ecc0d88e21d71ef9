-- ===== src/Io/Edge.antt =====
-- io/epoll/et-read/main.c: the edge-triggered loop over `epoll_wait`, one byte read for each event.
-- The results of the calls are inputs; the output is what is printed. The loop has no end.
pub mod Unread
use linux_programing_demo.Common.{
  if◌then◌else◌, length, take, ℕ, ◌+◌, ◌-◌, ◌%◌, Bool, not, List, [], ◌∷◌, ◌++◌,
}
use linux_programing_demo.Io.Epoll.{
  ReadResult, data_read, read_error, Event, readable, hung_up, other_event, Wait, interrupted,
  failed, timed_out, events,
}

pub data Line : Type 0 where
  wait_error : Line
  receive_eintr : Line
  timeout : Line
  returned : ℕ → Line  -- "epoll ret is %d"
  shown : List ℕ → ℕ → Line  -- "read [%s] from fd: %d"
  out_of_bounds : Line  -- `buffer[-1] = 0`, after a read that failed
  will_close : ℕ → Line  -- and `close(fd)`

-- One event of the `for` loop; the read asks for one byte.
unfoldable pub handle : Event → List Line
handle (readable fd (data_read bytes)) = shown (take 1 bytes) fd ∷ []
handle (readable fd read_error) = out_of_bounds ∷ []
handle (hung_up fd) = will_close fd ∷ []
handle (other_event fd) = []

unfoldable pub handle_all : List Event → List Line
unfolding handle
handle_all [] = []
handle_all (e ∷ es) = handle e ++ handle_all es

-- One round of `while (true)`.
unfoldable pub round : Wait → List Line
unfolding handle_all
round interrupted = wait_error ∷ receive_eintr ∷ []
round failed = wait_error ∷ []
round timed_out = timeout ∷ []
round (events es) = returned (length es) ∷ handle_all es

unfoldable pub loop : List Wait → List Line
unfolding round
loop [] = []
loop (w ∷ ws) = round w ++ loop ws

-- `main`: the codes of a set-up that fails, or what the loop prints on the results at hand.
pub data Outcome : Type 0 where
  exits : ℕ → Outcome
  runs : List Line → Outcome

unfoldable pub main : Bool → Bool → List Wait → Outcome
unfolding loop
main made_fifo made_epoll ws =
    if not made_fifo then exits 1 else if not made_epoll then exits 1 else runs (loop ws)
