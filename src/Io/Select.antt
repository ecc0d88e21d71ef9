-- ===== src/Io/Select.antt =====
-- io/select/main.c: one `select` over a regular file, a pipe and the standard input.
-- The results of the calls are inputs; the output is what is printed, and what is closed.
pub mod Ready
use linux_programing_demo.Common.{
  ltb, ◌==◌, if◌then◌else◌, take, ℕ, zero, suc, ◌+◌, ◌-◌, ◌%◌, Bool, false, ◌||◌, Option, none,
  some, List, [], ◌∷◌, ◌++◌,
}
use linux_programing_demo.Io.Epoll.{ReadResult, data_read, read_error}

abbrev pub maximum : ℕ → ℕ → ℕ
maximum x y = if ltb y x then x else y

-- `FD_SET` on a set given by its test.
abbrev pub fd_set : ℕ → (ℕ → Bool) → ℕ → Bool
fd_set fd fds i = (i == fd) || fds i

-- `normalFd > 0`, of the result of `open`.
abbrev pub is_open : Option ℕ → Bool
is_open none = false
is_open (some fd) = ltb 0 fd

-- The set before `select`, and `maxFd`.
pub record Watched : Type 0 where
  pub fds : ℕ → Bool
  pub max_fd : ℕ

unfoldable pub watch : Option ℕ → ℕ → Watched
watch normal pipe_read =
    let max1 = maximum (maximum 0 pipe_read) 0 in
    let fds1 : ℕ → Bool = fd_set 0 (fd_set pipe_read (λ _. false)) in
    elim normal [
      | none ↦ record { fds = fds1; max_fd = max1 }
      | some fd ↦
          if ltb 0 fd
          then record { fds = fd_set fd fds1; max_fd = maximum max1 fd }
          else record { fds = fds1; max_fd = max1 }
    ]

pub data Line : Type 0 where
  select_error : Line
  timeout : Line
  shown : List ℕ → ℕ → Line  -- "read [%s] from fd: %d"
  out_of_bounds : ℕ → Line  -- `buffer[-1] = 0`, after a read that failed

-- `select`: -1, 0, or the set of what is ready.
pub data Selected : Type 0 where
  failed : Selected
  timed_out : Selected
  ready : (ℕ → Bool) → Selected

-- The body of the `for` loop at `i`; a read asks for 1023 bytes at most.
unfoldable pub read_one : (ℕ → Bool) → (ℕ → ReadResult) → ℕ → List Line
read_one fds reads i =
    if fds i
    then elim (reads i) [
      | data_read bytes ↦ shown (take 1023 bytes) i ∷ []
      | read_error ↦ out_of_bounds i ∷ []
    ]
    else []

-- The `for` loop, with `rest` rounds to go.
unfoldable pub read_ready : (ℕ → Bool) → (ℕ → ReadResult) → ℕ → ℕ → List Line
unfolding read_one
read_ready fds reads zero i = []
read_ready fds reads (suc rest) i = read_one fds reads i ++ read_ready fds reads rest (i + 1)

-- The `switch`, after which `break` leaves the loop in its first round.
unfoldable pub round : ℕ → Selected → (ℕ → ReadResult) → List Line
unfolding read_ready
round max_fd failed reads = select_error ∷ []
round max_fd timed_out reads = timeout ∷ []
round max_fd (ready fds) reads = read_ready fds reads (max_fd + 1) 0

pub record Run : Type 0 where
  pub lines : List Line
  pub closed : List ℕ
  pub removes : Bool

abbrev pub close_open : ℕ → List ℕ
close_open fd = if ltb 0 fd then fd ∷ [] else []

unfoldable pub main : Option ℕ → ℕ → ℕ → Selected → (ℕ → ReadResult) → Run
unfolding watch round
main normal pipe_read pipe_write selected reads =
    let own : List ℕ = elim normal [ none ↦ [] | some fd ↦ close_open fd ] in
    record {
      lines = round (watch normal pipe_read).max_fd selected reads;
      closed = own ++ close_open pipe_read ++ close_open pipe_write;
      removes = is_open normal;
    }
