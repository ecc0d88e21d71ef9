-- ===== src/Io/Select/Ready.antt =====
-- Which descriptors are read after `select`.
use linux_programing_demo.Common.{
  ltb, leb, ◌==◌, if◌then◌else◌, ℕ, zero, suc, ◌+◌, ◌≤◌, ◌≡◌, Bool, true, ◌&&◌, Option, none, some,
  List, [], ◌∷◌, ◌++◌, arith,
}
use linux_programing_demo.Io.Epoll.{ReadResult}
use linux_programing_demo.Io.Select.{
  watch, Line, select_error, timeout, shown, out_of_bounds, ready, read_one, read_ready, round,
  main,
}

-- How often a descriptor is read.
abbrev pub reads_of : ℕ → List Line → ℕ
reads_of fd [] = 0
reads_of fd (shown bytes i ∷ ls) = (if i == fd then 1 else 0) + reads_of fd ls
reads_of fd (out_of_bounds i ∷ ls) = (if i == fd then 1 else 0) + reads_of fd ls
reads_of fd (_ ∷ ls) = reads_of fd ls

reads_of-append : (fd : ℕ) (a b : List Line) → reads_of fd (a ++ b) ≡ reads_of fd a + reads_of fd b
reads_of-append fd [] b = omega arith
reads_of-append fd (shown bytes i ∷ ls) b = omega (arith, reads_of-append fd ls b)
reads_of-append fd (out_of_bounds i ∷ ls) b = omega (arith, reads_of-append fd ls b)
reads_of-append fd (select_error ∷ ls) b = reads_of-append fd ls b
reads_of-append fd (timeout ∷ ls) b = reads_of-append fd ls b

read_one-count :
    (fds : ℕ → Bool) (reads : ℕ → ReadResult) (i fd : ℕ)
    → reads_of fd (read_one fds reads i) ≡ (if (i == fd) && fds fd then 1 else 0)
unfolding read_one
read_one-count fds reads i fd = ground arith

read_ready-count :
    (fds : ℕ → Bool) (reads : ℕ → ReadResult) (rest i fd : ℕ)
    → reads_of fd (read_ready fds reads rest i)
      ≡ (if leb i fd && (ltb fd (i + rest) && fds fd) then 1 else 0)
unfolding read_ready
read_ready-count fds reads zero i fd = ground arith
read_ready-count fds reads (suc rest) i fd = ground (
  arith,
  reads_of-append fd (read_one fds reads i) (read_ready fds reads rest (i + 1)),
  read_one-count fds reads i fd,
  read_ready-count fds reads rest (i + 1) fd,
)

watch-bound :
    (normal : Option ℕ) (p fd : ℕ) → (watch normal p).fds fd ≡ true → fd ≤ (watch normal p).max_fd
unfolding watch
watch-bound none p fd h = ground arith
watch-bound (some n) p fd h = ground arith

-- When `select` reports only descriptors it was asked to watch, `main` reads each of those reported once
-- and no other: the largest descriptor is counted in `maxFd`.
pub main-reads :
    (normal : Option ℕ) (pipe_read pipe_write : ℕ) (fds : ℕ → Bool) (reads : ℕ → ReadResult)
    → ((fd : ℕ) → fds fd ≡ true → (watch normal pipe_read).fds fd ≡ true)
    → (fd : ℕ)
    → reads_of fd (main normal pipe_read pipe_write (ready fds) reads).lines
      ≡ (if fds fd then 1 else 0)
unfolding main round
main-reads normal p w fds reads only fd = ground (
  arith,
  read_ready-count fds reads ((watch normal p).max_fd + 1) 0 fd,
  only fd,
  watch-bound normal p fd,
)
