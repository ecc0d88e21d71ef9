-- ===== src/Examples/Files.antt =====
-- Locks, events, writes and mappings for the programs of io/ and memory/.
use linux_programing_demo.Common.{
  ltb, take, All, sub_ℕ, ◌+ℤ◌, pos, ℕ, ◌+◌, ◌≤◌, ◌<◌, ◌≡◌, refl, ◌⊎◌, false, some, List, [], ◌∷◌,
  map, arith,
}
use linux_programing_demo.FileLock.Fcntl.{Request, Reply, replied, wrlck}
use linux_programing_demo.Io.BigFile.{Write, wrote, failed, write_loop, start, State, efbig}
use linux_programing_demo.Io.BigFile.Failures.{failures}
use linux_programing_demo.Io.BigFile.Offsets.{write_loop_lem, full_writes_finish}
use linux_programing_demo.Io.Inotify.{Event, display_event, read_loop}
use linux_programing_demo.Io.Inotify.RoundTrip.{reads_of, Fits, read_loop-encode}

abbrev grants : Request → Reply
grants fl = replied wrlck

abbrev two_writes : List Write
two_writes = wrote 4 ∷ wrote 3 ∷ wrote 1 ∷ wrote 1 ∷ wrote 1 ∷ []

full_writes_finish_example :
    (s : State) × (write_loop 5 (start 0) two_writes ≡ some s)
    × (s.had_error ≡ false)
    × (s.had_written_size ≡ pos 5)
    × (s.offset ≡ 5)
full_writes_finish_example =
    full_writes_finish 5 0 two_writes
      (omega arith, (omega arith, (omega arith, (omega arith, (omega arith, tt))))) (omega arith)

-- After one failure a byte too much is written.
abbrev one_failure : List Write
one_failure = wrote 4 ∷ failed 28 ∷ wrote 9 ∷ []

one_failure_runs : (s : State) × (write_loop 5 (start 0) one_failure ≡ some s)
unfolding write_loop ◌+ℤ◌
one_failure_runs = (_, refl)

write_loop_lem_example :
    (one_failure_runs.0.had_error ≡ ltb 0 (failures (take one_failure_runs.0.times one_failure)))
    × (one_failure_runs.0.had_written_size
        ≡ sub_ℕ one_failure_runs.0.offset (failures (take one_failure_runs.0.times one_failure)))
    × ((one_failure_runs.0.offset ≡ 5 + failures (take one_failure_runs.0.times one_failure))
        ⊎ ((0 < failures (take one_failure_runs.0.times one_failure))
            × (one_failure_runs.0.errno ≡ efbig)
            × (one_failure_runs.0.offset
                ≤ 5 + failures (take one_failure_runs.0.times one_failure))))
write_loop_lem_example = write_loop_lem 5 0 one_failure_runs.0 one_failure one_failure_runs.1

-- A named and a nameless event in one buffer, and a read of nothing before it.
abbrev named : Event
named = record { wd = 1; mask = 256; cookie = 0; name = b'f' ∷ 0 ∷ 0 ∷ 0 ∷ [] }

abbrev nameless : Event
nameless = record { wd = 2; mask = 1073741828; cookie = 77; name = [] }

abbrev groups : List (List Event)
groups = [] ∷ (named ∷ nameless ∷ []) ∷ []

groups-Fits : All (All Fits) groups
groups-Fits = ground arith

read_loop-encode_example :
    read_loop (reads_of groups) ≡ some (map display_event (named ∷ nameless ∷ []))
read_loop-encode_example = read_loop-encode groups groups-Fits

abbrev memory : List ℕ
memory = 9 ∷ 9 ∷ 9 ∷ []
