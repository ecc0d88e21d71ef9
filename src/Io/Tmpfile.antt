-- ===== src/Io/Tmpfile.antt =====
-- io/tmpfile/main.c: a byte is written to a temporary file, and read back. The results of the calls are
-- inputs; `lseek` does not fail.
pub mod ReadBack
use linux_programing_demo.Common.{
  ◌==◌, if◌then◌else◌, take, ℤ, pos, negsuc, ℕ, zero, suc, ◌+◌, Bool, true, false, not, Option,
  none, some, List, [], ◌∷◌,
}

pub data Line : Type 0 where
  bad_fd : ℤ → Line
  bad_write : ℤ → Line
  bad_read : ℤ → Line
  buffer_is : ℕ → Bool → Line  -- the byte, and whether the test is ok

-- `ssize_t` of a call that takes some bytes, or fails.
abbrev pub size : Option ℕ → ℤ
size none = negsuc 0
size (some n) = pos n

-- The file after `write(fd, buffer, 1)`, and `buffer[0]` after `read(fd, buffer, 1)` at its start.
unfoldable pub stored : Option ℕ → List ℕ
stored none = []
stored (some n) = take n (b'a' ∷ [])

unfoldable pub read_first : Bool → List ℕ → Option ℕ × ℕ
read_first false file = (none, 0)
read_first true [] = (some 0, 0)
read_first true (c ∷ file) = (some 1, c)

abbrev pub is_one : Option ℕ → Bool
is_one none = false
is_one (some n) = n == 1

-- `_writeAndRead`: what the `write` takes, and whether the `read` is without an error.
unfoldable pub write_and_read : ℤ → Option ℕ → Bool → List Line
unfolding stored read_first
write_and_read (negsuc k) w reads = bad_fd (negsuc k) ∷ []
write_and_read (pos fd) w reads =
    let (r, c) = read_first reads (stored w) in
    let last = buffer_is c (c == b'a') ∷ [] in
    let after_read = if is_one r then last else bad_read (size r) ∷ last in
    if is_one w then after_read else bad_write (size w) ∷ after_read
