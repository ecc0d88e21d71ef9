-- ===== src/Io/BigFile.antt =====
-- io/bigfile/main.c: the loop that writes a file of more than 2 GB in blocks of 4096 bytes.
-- The results of `write` are inputs, the file's offset is tracked, `lseek` does not fail.
pub mod Failures
pub mod Offsets
use linux_programing_demo.Common.{
  ltb, ◌==◌, if◌then◌else◌, ◌+ℤ◌, ℤ, pos, negsuc, ℕ, ◌+◌, ◌-◌, min, Bool, true, false, ◌&&◌, Option,
  none, some, List, [], ◌∷◌,
}

-- `write`: a number of bytes, of those asked for at most, or -1 with an errno.
pub data Write : Type 0 where
  wrote : ℕ → Write
  failed : ℕ → Write

-- The variables of the loop, the file's offset and `errno`. `times` is `i`.
pub record State : Type 0 where
  pub times : ℕ
  pub had_written_size : ℤ
  pub had_error : Bool
  pub offset : ℕ
  pub errno : ℕ

abbrev pub buffer_size : ℕ
buffer_size = 4096

abbrev pub efbig : ℕ
efbig = 27

-- `hadWrittenSize < totalSize`.
abbrev pub below : ℤ → ℕ → Bool
below (pos h) total = ltb h total
below (negsuc k) total = true

-- `totalSize - hadWrittenSize`, of a `hadWrittenSize` that is below.
abbrev pub remaining : ℕ → ℤ → ℕ
remaining total (pos h) = total - h
remaining total (negsuc k) = total + k + 1

abbrev pub equals_offset : ℤ → ℕ → Bool
equals_offset (pos h) offset = h == offset
equals_offset (negsuc k) offset = false

-- `write(fd, buffer, needsWriteSize)` and `hadWrittenSize += wroteSize`.
unfoldable pub after_write : ℕ → Write → State → State
after_write total (wrote n) s =
    let n' = min n (min (remaining total s.had_written_size) buffer_size) in
    record s {
      times = s.times + 1;
      had_written_size = s.had_written_size +ℤ pos n';
      offset = s.offset + n';
    }
after_write total (failed e) s = record s {
  times = s.times + 1;
  had_written_size = s.had_written_size +ℤ negsuc 0;
  errno = e;
}

-- The comparison with `lseek(fd, 0, SEEK_CUR)`.
unfoldable pub compare_offset : State → State
compare_offset s =
    if equals_offset s.had_written_size s.offset then s else record s { had_error = true }

-- Whether the loop is left by `break`.
unfoldable pub gives_up : State → Bool
gives_up s = s.had_error && (s.errno == efbig)

-- The loop; none if the results at hand end before it does.
unfoldable pub write_loop : ℕ → State → List Write → Option State
unfolding after_write compare_offset gives_up
write_loop total s [] = if below s.had_written_size total then none else some s
write_loop total s (w ∷ ws) =
    let s' = compare_offset (after_write total w s) in
    let rest = write_loop total s' ws in
    if below s.had_written_size total then (if gives_up s' then some s' else rest) else some s

abbrev pub start : ℕ → State
start e = record { times = 0; had_written_size = pos 0; had_error = false; offset = 0; errno = e }
