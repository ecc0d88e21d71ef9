-- ===== src/FileInfo/Stat.antt =====
-- io/stat/main.c. `stat` and `lstat` are inputs; none is the return of -1.
use linux_programing_demo.Common.{
  ◌==◌, if◌then◌else◌, ℕ, ◌*◌, ◌/◌, ◌%◌, Bool, true, false, ◌||◌, Option, none, some, List, [], ◌∷◌,
}
use linux_programing_demo.CString.{CString, same_string}

-- `struct stat`, the fields that are shown.
pub record Stat : Type 0 where
  pub st_mode : ℕ
  pub st_ino : ℕ
  pub st_nlink : ℕ
  pub st_blksize : ℕ
  pub st_size : ℕ
  pub st_blocks : ℕ
  pub st_ctime : ℕ
  pub st_atime : ℕ
  pub st_mtime : ℕ

-- `mode & S_IFMT`: the bits 12 to 15.
unfoldable pub format_of : ℕ → ℕ
format_of mode = mode / 4096 % 16 * 4096

abbrev pub s_ififo : ℕ
s_ififo = 4096

abbrev pub s_ifchr : ℕ
s_ifchr = 8192

abbrev pub s_ifdir : ℕ
s_ifdir = 16384

abbrev pub s_ifblk : ℕ
s_ifblk = 24576

abbrev pub s_ifreg : ℕ
s_ifreg = 32768

abbrev pub s_iflnk : ℕ
s_iflnk = 40960

abbrev pub s_ifsock : ℕ
s_ifsock = 49152

-- The names that the `switch` prints.
pub data Kind : Type 0 where
  block_device character_device directory fifo symlink regular_file socket unknown : Kind

unfoldable pub kind_of : ℕ → Kind
unfolding format_of
kind_of mode =
    let f = format_of mode in
    if f == s_ifblk
    then block_device
    else if f == s_ifchr
    then character_device
    else if f == s_ifdir
    then directory
    else if f == s_ififo
    then fifo
    else if f == s_iflnk
    then symlink
    else if f == s_ifreg
    then regular_file
    else if f == s_ifsock
    then socket
    else unknown

-- What the program does: the usage and the failed call end with -1.
pub data Outcome : Type 0 where
  usage : Outcome
  call_failed : Outcome
  shown : Kind → Stat → Outcome

-- Which file is looked at, and whether `lstat` is used.
pub record Request : Type 0 where
  pub use_lstat : Bool
  pub file_name : CString

-- The options, of the arguments after `argv[0]`; none is the usage.
unfoldable pub parse : List CString → Option Request
parse [] = none
parse (a ∷ rest) =
    if same_string a (b'-' ∷ b'h' ∷ [])
      || same_string a (b'-' ∷ b'-' ∷ b'h' ∷ b'e' ∷ b'l' ∷ b'p' ∷ [])
    then none
    else elim rest [
      | [] ↦ some (record { use_lstat = false; file_name = a })
      | b ∷ more ↦
          if same_string a (b'-' ∷ b'l' ∷ [])
          then some (record { use_lstat = true; file_name = b })
          else some (record { use_lstat = false; file_name = a })
    ]

unfoldable pub main : (CString → Option Stat) → (CString → Option Stat) → List CString → Outcome
unfolding parse kind_of
main stat lstat args = elim (parse args) [
  | none ↦ usage
  | some r ↦ elim (if r.use_lstat then lstat r.file_name else stat r.file_name) [
    | none ↦ call_failed
    | some sb ↦ shown (kind_of sb.st_mode) sb
  ]
]
