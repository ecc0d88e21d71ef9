-- ===== src/FileInfo/Walk/Pruned.antt =====
-- Which files the walk shows.
use linux_programing_demo.Common.{
  if◌then◌else◌, Bool-cases, drop-append, ℕ, ◌≡◌, refl, ap, inl, inr, List, [], ◌∷◌, ◌++◌, arith,
}
use linux_programing_demo.CString.{CString, same_string}
use linux_programing_demo.FileInfo.Stat.{
  Stat, format_of, Kind, block_device, character_device, directory, fifo, symlink, regular_file,
  socket, unknown, kind_of,
}
use linux_programing_demo.FileInfo.Walk.{
  mode_letter, Line, git_name, walk_info, Tree, entry, dir, Trees, nil, cons, walk, walk_all, main,
}

-- The tree without what is below a directory `.git`, and its names, each before those below it.
mutual
  pub prune : Tree → Tree
  prune (entry name sb flag) = entry name sb flag
  prune (dir name sb children) =
      let kept = prune_all children in
      if same_string name git_name then dir name sb nil else dir name sb kept

  pub prune_all : Trees → Trees
  prune_all nil = nil
  prune_all (cons t ts) = cons (prune t) (prune_all ts)

mutual
  pub names : Tree → List CString
  names (entry name sb flag) = name ∷ []
  names (dir name sb children) = name ∷ names_all children

  pub names_all : Trees → List CString
  names_all nil = []
  names_all (cons t ts) = names t ++ names_all ts

-- `map` with a projection.
abbrev pub bases : List Line → List CString
bases [] = []
bases (l ∷ ls) = l.base_path ∷ bases ls

bases-append : (a b : List Line) → bases (a ++ b) ≡ bases a ++ bases b
bases-append [] b = refl
bases-append (l ∷ a) b = ap (l.base_path ∷◌) (bases-append a b)

mutual
  unfolding walk prune names walk_info

  walk-names : (parent : CString) (t : Tree) → bases (walk parent t) ≡ names (prune t)
  walk-names parent (entry name sb flag) = ap (◌∷ []) (drop-append parent name)
  walk-names parent (dir name sb children) = elim (Bool-cases (same_string name git_name)) [
    | inl git ↦ rw (drop-append parent name, git) refl
    | inr other ↦
        rw (drop-append parent name, other)
          (ap (name ∷◌) (walk_all-names (parent ++ name ++ b'/' ∷ []) children))
  ]

  walk_all-names :
      (parent : CString) (ts : Trees) → bases (walk_all parent ts) ≡ names_all (prune_all ts)
  walk_all-names parent nil = refl
  walk_all-names parent (cons t ts) =
      rw
        (
          bases-append (walk parent t) (walk_all parent ts),
          walk-names parent t,
          walk_all-names parent ts,
        )
        refl

-- For every directory with all that is in it: the last components that walkInfo is given, in
-- the order of its calls, are the names of the tree with all that is below a `.git` left out, each
-- directory before what is in it. A `.git` itself is shown.
pub main-names :
    (sb : Stat) (children : Trees)
    → bases (main sb children) ≡ (b'.' ∷ b'.' ∷ []) ∷ names_all (prune_all children)
unfolding main prune names same_string
main-names sb children = walk-names [] (dir (b'.' ∷ b'.' ∷ []) sb children)

-- The letter of each kind of file.
abbrev letter : Kind → ℕ
letter block_device = b'b'
letter character_device = b'c'
letter directory = b'd'
letter fifo = b'p'
letter symlink = b'l'
letter regular_file = b'-'
letter socket = b's'
letter unknown = b'?'

-- For every mode, the letter that walkInfo prints is that of the kind of file io/stat/main.c names.
pub kinds_agree : (mode : ℕ) → mode_letter mode ≡ letter (kind_of mode)
unfolding mode_letter kind_of format_of
kinds_agree mode = ground arith
