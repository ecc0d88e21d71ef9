-- ===== src/Io/Pipe.antt =====
-- io/pipe/main.c: one byte after the other into a pipe that nobody reads, while both ends are open.
pub mod Full
use linux_programing_demo.Common.{ltb, if◌then◌else◌, ℕ, zero, suc, ◌+◌, Option, none, some}

-- How the program ends: `pipe` fails, a `write` blocks for ever, in the round with its `i`, or all the
-- writes are made.
pub data End : Type 0 where
  pipe_failed : End
  blocked : ℕ → End
  filled : ℕ → End

-- The loop, with `rest` rounds to go, on a pipe of `capacity` bytes that holds `content`.
unfoldable pub fill : ℕ → ℕ → ℕ → ℕ → End
fill capacity zero i content = filled content
fill capacity (suc rest) i content =
    let next = fill capacity rest (i + 1) (content + 1) in
    if ltb content capacity then next else blocked i

abbrev pub max_write_count : ℕ
max_write_count = 65537

unfoldable pub main : Option ℕ → End
unfolding fill
main none = pipe_failed
main (some capacity) = fill capacity max_write_count 0 0
