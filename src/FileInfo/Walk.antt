-- ===== src/FileInfo/Walk.antt =====
-- directory/file_tree_walk/main.c: `walkInfo`, and the walk that `nftw` makes with it: each entry before
-- those below it, as FTW_DEPTH is not set, and none below an entry for which FTW_SKIP_SUBTREE is
-- returned, as FTW_ACTIONRETVAL is.
pub mod Pruned
use linux_programing_demo.Common.{
  ◌==◌, if◌then◌else◌, length, drop, ℕ, ◌+◌, ◌-◌, ◌/◌, Bool, true, false, Option, none, some, List,
  [], ◌∷◌, ◌++◌,
}
use linux_programing_demo.CString.{CString, same_string}
use linux_programing_demo.FileInfo.Stat.{
  Stat, format_of, s_ififo, s_ifchr, s_ifdir, s_ifblk, s_ifreg, s_iflnk, s_ifsock,
}

-- The type flags of an entry.
pub data TypeFlag : Type 0 where
  ftw_d ftw_dnr ftw_dp ftw_f ftw_sl ftw_sln ftw_ns : TypeFlag

-- The first `switch`.
unfoldable pub mode_letter : ℕ → ℕ
unfolding format_of
mode_letter mode =
    let f = format_of mode in
    if f == s_ifreg
    then b'-'
    else if f == s_ifdir
    then b'd'
    else if f == s_ifchr
    then b'c'
    else if f == s_ifblk
    then b'b'
    else if f == s_iflnk
    then b'l'
    else if f == s_ififo
    then b'p'
    else if f == s_ifsock
    then b's'
    else b'?'

-- What one call of `walkInfo` prints; the size is left out for FTW_NS.
pub record Line : Type 0 where
  pub letter : ℕ
  pub flag : TypeFlag
  pub size : Option ℕ
  pub path_name : CString
  pub base_path : CString
  pub skips : Bool

abbrev pub git_name : CString
git_name = b'.' ∷ b'g' ∷ b'i' ∷ b't' ∷ []

abbrev pub is_ns : TypeFlag → Bool
is_ns ftw_ns = true
is_ns _ = false

-- `walkInfo`; it returns FTW_SKIP_SUBTREE when the line skips, and else 0.
unfoldable pub walk_info : CString → Stat → TypeFlag → ℕ → Line
unfolding mode_letter
walk_info path_name sb type_flag base = record {
  letter = mode_letter sb.st_mode;
  flag = type_flag;
  size = if is_ns type_flag then none else some sb.st_size;
  path_name = path_name;
  base_path = drop base path_name;
  skips = same_string (drop base path_name) git_name;
}

-- The files that `nftw` finds below a name: an entry that is no directory, or cannot be read as one,
-- with its flag, or a directory.
mutual
  pub data Tree : Type 0 where
    entry : CString → Stat → TypeFlag → Tree
    dir : CString → Stat → Trees → Tree

  pub data Trees : Type 0 where
    nil : Trees
    cons : Tree → Trees → Trees

-- The calls of `walkInfo` for a tree in the directory `parent`, whose path with its slash is given.
unfoldable mutual
  pub walk : CString → Tree → List Line
  walk parent (entry name sb flag) = walk_info (parent ++ name) sb flag (length parent) ∷ []
  walk parent (dir name sb children) =
      let line = walk_info (parent ++ name) sb ftw_d (length parent) in
      let below = walk_all (parent ++ name ++ b'/' ∷ []) children in
      line ∷ (if line.skips then [] else below)

  pub walk_all : CString → Trees → List Line
  walk_all parent nil = []
  walk_all parent (cons t ts) = walk parent t ++ walk_all parent ts

-- `fileTreeWalk("..")`, of what is in that directory.
unfoldable pub main : Stat → Trees → List Line
unfolding walk
main sb children = walk [] (dir (b'.' ∷ b'.' ∷ []) sb children)
