-- ===== src/Io/Base.antt =====
-- io/base/main.c: four bytes into a new file, and their reading back, with three reads more.
pub mod Reading
use linux_programing_demo.Common.{
  if◌then◌else◌, take, drop, ℤ, pos, negsuc, ℕ, zero, suc, ◌+◌, ◌-◌, Bool, List, [], ◌∷◌,
}

-- What is printed of a read: its size and the byte in the buffer.
pub record Line : Type 0 where
  pub size : ℕ
  pub char : ℕ

-- `read(fd, &buffer, 1)` at what is left of the file; the buffer is 0 before it.
unfoldable pub read_one : List ℕ → Line
read_one [] = record { size = 0; char = 0 }
read_one (c ∷ left) = record { size = 1; char = c }

-- The `for` loop with `rounds` to go.
unfoldable pub read_rounds : ℕ → List ℕ → List Line
unfolding read_one
read_rounds zero left = []
read_rounds (suc rounds) left = read_one left ∷ read_rounds rounds (drop 1 left)

pub data End : Type 0 where
  open_failed : End
  shown : ℤ → List Line → End

abbrev pub text : List ℕ
text = b'a' ∷ b'b' ∷ b'c' ∷ b'd' ∷ []

-- `main`: what `write` returns is the number of bytes that are in the file, or -1; the loop makes
-- `writeSize + 3` rounds.
unfoldable pub main : Bool → ℤ → End
unfolding read_rounds
main opens (pos n) =
    if opens then shown (pos n) (read_rounds (n + 3) (take n text)) else open_failed
main opens (negsuc k) =
    if opens then shown (negsuc k) (read_rounds (3 - (k + 1)) []) else open_failed
