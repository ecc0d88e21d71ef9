-- ===== src/FileLock/Fcntl/Requests.antt =====
-- What `_lock` and `main` ask of `fcntl`, and what they make of the answer.
use linux_programing_demo.Common.{length, ◌<◌, ◌≡◌, Bool, Option, none, some, List, arith}
use linux_programing_demo.CString.{CString, first_char}
use linux_programing_demo.FileLock.Fcntl.{
  Cmd, getlk, unlck, seek_set, Request, Reply, errno, replied, parse_cmd, parse_whence, MainEnd,
  locked, arg, main,
}

-- The answers that mean that the lock can be had, or is had.
abbrev pub Granted : Cmd → Reply → Type 0
Granted getlk (replied ty) = ty ≡ unlck
Granted getlk (errno e) = ⊥
Granted _ (replied ty) = Unit
Granted _ (errno e) = ⊥

abbrev from_some : Request → Option Request → Request
from_some fl none = fl
from_some fl (some x) = x

-- The request of a call of `_lock` by `main`.
abbrev pub AsksFor : MainEnd → (Request → Type 0) → Type 0
AsksFor (locked r s) P = elim r.asked [ none ↦ Unit | some fl ↦ P fl ]
AsksFor _ P = Unit

-- With the optional `whence` argument, `main` takes it for the command: whatever the arguments are,
-- the range counts from the start of the file, and with seven arguments or more the command is the
-- one that the argument for `whence` spells, not the argument for the command.
pub main_whence_ignored :
    (opens dups test_close : Bool) (kernel : Request → Reply) (argv : List CString)
    → 6 < length argv
    → AsksFor
        (main opens dups test_close kernel argv)
        (λ fl. (fl.l_whence ≡ seek_set) × (parse_cmd (first_char (arg argv 6)) ≡ some fl.cmd))
unfolding main parse_whence
main_whence_ignored opens dups test_close kernel argv h = ground arith
