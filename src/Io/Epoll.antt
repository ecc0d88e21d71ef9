-- ===== src/Io/Epoll.antt =====
-- io/epoll/base/main.c: the loop over `epoll_wait`.
-- The results of the waiting and reading calls are inputs; the output is what is printed of the
-- data that was read, and which descriptors are closed.
pub mod Descriptors
pub mod Rounds
use linux_programing_demo.Common.{
  ltb, leb, ◌==◌, if◌then◌else◌, take, ℕ, ◌-◌, Bool, false, Option, none, some, List, [], ◌∷◌,
}

-- `read(fd, buffer, 1023)`: bytes, or -1.
pub data ReadResult : Type 0 where
  data_read : List ℕ → ReadResult
  read_error : ReadResult

-- What one `read` and `buffer[readSize] = 0` do: the bytes printed, or a store in front of the
-- buffer, for a read that failed.
pub data Printed : Type 0 where
  shown : List ℕ → Printed
  out_of_bounds : Printed

-- A read asks for 1023 bytes at most.
unfoldable pub read_and_show : ReadResult → Printed
read_and_show (data_read bytes) = shown (take 1023 bytes)
read_and_show read_error = out_of_bounds

-- An event: on which descriptor, and whether EPOLLIN is set, with the read that follows, or else
-- EPOLLHUP or EPOLLERR, or neither.
pub data Event : Type 0 where
  readable : ℕ → ReadResult → Event
  hung_up : ℕ → Event
  other_event : ℕ → Event

abbrev pub event_fd : Event → ℕ
event_fd (readable fd r) = fd
event_fd (hung_up fd) = fd
event_fd (other_event fd) = fd

-- `epoll_wait`: -1 with EINTR or another errno, 0, or events.
pub data Wait : Type 0 where
  interrupted failed timed_out : Wait
  events : List Event → Wait

-- The variables of `main`, with the lists of what it printed and closed, newest first.
pub record State : Type 0 where
  pub pipe0 : Option ℕ
  pub pipe1 : Option ℕ
  pub timeout_count : ℕ
  pub printed : List Printed
  pub closed : List ℕ

abbrev pub is_fd : Option ℕ → ℕ → Bool
is_fd none fd = false
is_fd (some p) fd = p == fd

-- One event of the `for` loop.
unfoldable pub handle : State → Event → State
unfolding read_and_show
handle s (readable fd r) = record s { printed = read_and_show r ∷ s.printed }
handle s (hung_up fd) = record s {
  closed = fd ∷ s.closed;
  pipe0 = if is_fd s.pipe0 fd then none else s.pipe0;
}
handle s (other_event fd) = s

unfoldable pub handle_all : State → List Event → State
unfolding handle
handle_all s [] = s
handle_all s (e ∷ es) = handle_all (handle s e) es

-- `close(fd)` of a variable that is not -1; a descriptor of a pipe is above 0.
unfoldable pub close_var : Option ℕ → List ℕ → List ℕ
close_var none l = l
close_var (some fd) l = if ltb 0 fd then fd ∷ l else l

-- The case 0 of the `switch`: one timeout less to go, and at two left the write end is closed.
unfoldable pub on_timeout : State → State
on_timeout s =
    let s' = record s { timeout_count = s.timeout_count - 1 } in
    if s'.timeout_count == 2
    then record s' {
      closed = elim s.pipe1 [ none ↦ s.closed | some fd ↦ fd ∷ s.closed ];
      pipe1 = none;
    }
    else s'

-- One round of `while (true)` up to its test.
unfoldable pub round : State → Wait → State
unfolding on_timeout handle_all
round s interrupted = s
round s failed = s
round s timed_out = on_timeout s
round s (events es) = handle_all s es

-- `continue` skips the test at the end of the loop.
unfoldable pub leaves : State → Wait → Bool
leaves s interrupted = false
leaves s w = leb s.timeout_count 0

-- The closing of the pipe after the loop.
unfoldable pub finish : State → State
unfolding close_var
finish s = record s { closed = close_var s.pipe1 (close_var s.pipe0 s.closed) }

-- The loop; none if the results at hand end before it does.
unfoldable pub loop : State → List Wait → Option State
unfolding round leaves finish
loop s [] = none
loop s (w ∷ ws) =
    let s' = round s w in let rest = loop s' ws in if leaves s' w then some (finish s') else rest

-- The variables before the loop, the pipe being made with the descriptors `p0` and `p1`.
abbrev pub start : ℕ → ℕ → State
start p0 p1 = record {
  pipe0 = some p0;
  pipe1 = some p1;
  timeout_count = 3;
  printed = [];
  closed = [];
}

unfoldable pub main : ℕ → ℕ → List Wait → Option State
unfolding loop
main p0 p1 ws = loop (start p0 p1) ws
