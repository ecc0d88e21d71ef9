-- ===== src/Io/FwriteFile.antt =====
-- other/fread/main.c: the loop of io/bigfile/main.c over `fwrite` and `ftell`. What `fwrite` writes
-- is an input; `ftell` does not fail.
pub mod Progress
use linux_programing_demo.Common.{
  ltb, ◌==◌, if◌then◌else◌, ℕ, ◌+◌, ◌-◌, min, Bool, true, false, ◌&&◌, Option, none, some, List, [],
  ◌∷◌,
}

-- `fwrite`: how many bytes it writes, of those asked for at most, and the errno after it.
pub record Fwrite : Type 0 where
  pub wrote : ℕ
  pub sets_errno : ℕ

-- The variables of the loop, the stream's position and `errno`; `times` is `i`.
pub record State : Type 0 where
  pub times : ℕ
  pub had_written_size : ℕ
  pub had_error : Bool
  pub position : ℕ
  pub errno : ℕ

-- One call of `fwrite` for `min(totalSize - hadWrittenSize, bufferSize)` bytes, and the comparison
-- with `ftell`.
pub write_once : ℕ → Fwrite → State → State
write_once total f s =
    let n = min f.wrote (min (total - s.had_written_size) 4096) in
    let size = s.had_written_size + n in
    let position = s.position + n in
    record {
      times = s.times + 1;
      had_written_size = size;
      had_error = if position == size then s.had_error else true;
      position = position;
      errno = f.sets_errno;
    }

-- The loop; none if the results at hand end before it does.
pub write_loop : ℕ → State → List Fwrite → Option State
write_loop total s [] = if ltb s.had_written_size total then none else some s
write_loop total s (f ∷ fs) =
    let s' = write_once total f s in
    let rest = write_loop total s' fs in
    if ltb s.had_written_size total
    then (if s'.had_error && (s'.errno == 27) then some s' else rest)
    else some s

abbrev pub start : State
start = record { times = 0; had_written_size = 0; had_error = false; position = 0; errno = 0 }
