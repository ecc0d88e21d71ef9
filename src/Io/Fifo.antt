-- ===== src/Io/Fifo.antt =====
-- io/fifo/reader.c and io/fifo/writer.c. The results of the calls are inputs.
pub mod Through
use linux_programing_demo.Common.{
  ◌==◌, if◌then◌else◌, ℤ, pos, ℕ, Bool, not, ◌&&◌, Option, none, some, List, [], ◌∷◌,
}

-- The start of both programs: exit -1 when the FIFO cannot be made or opened.
pub data Opened : Type 0 where
  mkfifo_failed : Opened
  open_failed : Opened
  opened : Opened

unfoldable pub open_fifo : Bool → Bool → Bool → Opened
open_fifo exists makes opens =
    if not exists && not makes then mkfifo_failed else if opens then opened else open_failed

-- What the reader's loop prints; the size of a read that is not 1.
pub data Line : Type 0 where
  byte_read : ℕ → Line
  read_error : ℤ → Line

-- The loop of the reader, on the bytes that the reads give before the end of the file; `left` is
-- what is still there after the loop.
pub record Reading : Type 0 where
  pub lines : List Line
  pub left : List ℕ

unfoldable pub read_loop : List ℕ → Reading
read_loop [] = record { lines = read_error (pos 0) ∷ []; left = [] }
read_loop (ch ∷ chs) =
    let rest = read_loop chs in
    if ch == b'x'
    then record { lines = byte_read ch ∷ []; left = chs }
    else record { lines = byte_read ch ∷ rest.lines; left = rest.left }

unfoldable pub reader_main : Bool → Bool → Bool → List ℕ → Opened × Option Reading
unfolding open_fifo read_loop
reader_main exists makes opens input = elim (open_fifo exists makes opens) [
  | mkfifo_failed ↦ (mkfifo_failed, none)
  | open_failed ↦ (open_failed, none)
  | opened ↦ (opened, some (read_loop input))
]

-- The writer's string, and its `main`: what it hands to `write`.
abbrev pub buffer : List ℕ
buffer = b'a' ∷ b'b' ∷ b'c' ∷ b'd' ∷ b'e' ∷ b'f' ∷ b'g' ∷ b'h' ∷ b'x' ∷ []

unfoldable pub writer_main : Bool → Bool → Bool → Opened × List ℕ
unfolding open_fifo
writer_main exists makes opens = elim (open_fifo exists makes opens) [
  | mkfifo_failed ↦ (mkfifo_failed, [])
  | open_failed ↦ (open_failed, [])
  | opened ↦ (opened, buffer)
]
