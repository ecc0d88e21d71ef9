-- ===== src/FileLock/Fcntl.antt =====
-- io/file_lock/fcntl/main.c: `_lock` and the reading of its arguments in `main`. What `fcntl`
-- answers is an input: the descriptor's locks are the kernel's.
pub mod Requests
use linux_programing_demo.Common.{
  ltb, ◌==◌, if◌then◌else◌, length, ℤ, pos, negsuc, ℕ, zero, suc, Bool, true, false, not, ◌&&◌,
  ◌||◌, Option, none, some, List, [], ◌∷◌,
}
use linux_programing_demo.CString.{CString, first_char, same_string, atoi, dash_help}

pub data Cmd : Type 0 where
  getlk setlk setlkw : Cmd

pub data LockType : Type 0 where
  rdlck wrlck unlck : LockType

pub data Whence : Type 0 where
  seek_set seek_cur seek_end : Whence

-- `struct flock`, with the command that it is passed with.
pub record Request : Type 0 where
  pub cmd : Cmd
  pub l_type : LockType
  pub l_whence : Whence
  pub l_start : ℤ
  pub l_len : ℤ

-- What `fcntl` does: -1 with an errno, or 0 with the `l_type` that it leaves.
pub data Reply : Type 0 where
  errno : ℕ → Reply
  replied : LockType → Reply

-- The line that `_lock` prints.
pub data Line : Type 0 where
  unknown_cmd unknown_type getlk_error succeeded denied set_failed deadlock set_error : Line

-- The end of `_lock`: its result, its line, what it asked of `fcntl`, and how many descriptors
-- it has duplicated and left open.
pub record LockEnd : Type 0 where
  pub result : ℤ
  pub printed : Line
  pub asked : Option Request
  pub left_open : ℕ

abbrev pub eacces : ℕ
eacces = 13

abbrev pub eagain : ℕ
eagain = 11

abbrev pub edeadlk : ℕ
edeadlk = 35

pub parse_cmd : ℕ → Option Cmd
parse_cmd c =
    if c == b'g'
    then some getlk
    else (if c == b's' then some setlk else (if c == b'w' then some setlkw else none))

pub parse_type : ℕ → Option LockType
parse_type t =
    if t == b'r'
    then some rdlck
    else (if t == b'w' then some wrlck else (if t == b'u' then some unlck else none))

-- Any other character stands for SEEK_SET.
pub parse_whence : ℕ → Whence
parse_whence w = if w == b'c' then seek_cur else (if w == b'e' then seek_end else seek_set)

-- The result and the line, by the command and what `fcntl` answered.
pub judge : Cmd → Reply → ℤ × Line
judge getlk (errno e) = (negsuc 0, getlk_error)
judge getlk (replied unlck) = (pos 0, succeeded)
judge getlk (replied _) = (negsuc 0, denied)
judge _ (replied _) = (pos 0, succeeded)
judge _ (errno e) =
    if e == eagain || e == eacces
    then (negsuc 0, set_failed)
    else (if e == edeadlk then (negsuc 0, deadlock) else (negsuc 0, set_error))

-- `if (g_testClose && result == 0) { sleep(5); close(fd2); result = -1; }`
pub test_close_part : Bool → ℕ → ℤ → ℤ × ℕ
test_close_part true duplicates (pos zero) = (negsuc 0, 0)
test_close_part _ duplicates r = (r, duplicates)

-- How many descriptors `dup` has opened, by whether it succeeds; its result is not tested.
abbrev pub duplicated : Bool → ℕ
duplicated true = 1
duplicated false = 0

-- `_lock`, where `fcntl` answers by `kernel`; `test_close` is `g_testClose`, `dups`
-- whether `dup` succeeds.
pub lock : Bool → Bool → (Request → Reply) → ℕ → ℕ → ℕ → ℤ → ℤ → LockEnd
lock dups test_close kernel c t w start len = elim (parse_cmd c) [
  | none ↦ record { result = negsuc 0; printed = unknown_cmd; asked = none; left_open = 0 }
  | some cmd ↦ elim (parse_type t) [
    | none ↦ record { result = negsuc 0; printed = unknown_type; asked = none; left_open = 0 }
    | some ty ↦
        let fl : Request = record {
          cmd = cmd;
          l_type = ty;
          l_whence = parse_whence w;
          l_start = start;
          l_len = len;
        } in
        let (r, line) = judge cmd (kernel fl) in
        let (r', open_fds) = test_close_part test_close (duplicated dups) r in
        record { result = r'; printed = line; asked = some fl; left_open = open_fds }
  ]
]

-- How `main` ends after its test of two descriptors: a message and -1, or a call of `_lock` and
-- the seconds that it sleeps with the lock.
pub data MainEnd : Type 0 where
  usage open_failed empty_range : MainEnd
  locked : LockEnd → Option ℤ → MainEnd

abbrev pub is_zero : ℤ → Bool
is_zero (pos zero) = true
is_zero _ = false

-- `argv[i]`, the empty string where it is missing; each use is guarded by `argc`.
abbrev pub arg : List CString → ℕ → CString
arg [] i = []
arg (a ∷ l) zero = a
arg (a ∷ l) (suc i) = arg l i

-- `char c = argv[2][0]; ... if (argc > 6) c = argv[6][0];`
pub cmd_char : List CString → ℕ
cmd_char argv = if ltb 6 (length argv) then first_char (arg argv 6) else first_char (arg argv 2)

pub sleep_time : List CString → ℤ
sleep_time argv = if ltb 7 (length argv) then atoi (arg argv 7) else pos 10

-- `main` behind the usage test; `opens` is whether `open` succeeds. `w` stays 's'.
pub main_lock : Bool → Bool → Bool → (Request → Reply) → List CString → MainEnd
unfolding cmd_char sleep_time lock
main_lock opens dups test_close kernel argv =
    let end_of_lock =
      lock dups test_close kernel (cmd_char argv) (first_char (arg argv 3)) b's' (atoi (arg argv 4))
        (atoi (arg argv 5)) in
    if not opens
    then open_failed
    else (if is_zero (atoi (arg argv 4)) && is_zero (atoi (arg argv 5))
        then empty_range
        else locked end_of_lock
            (if is_zero end_of_lock.result then some (sleep_time argv) else none))

pub main : Bool → Bool → Bool → (Request → Reply) → List CString → MainEnd
unfolding main_lock same_string
main opens dups test_close kernel argv =
    if ltb (length argv) 6 || same_string (arg argv 1) dash_help
    then usage
    else main_lock opens dups test_close kernel argv
