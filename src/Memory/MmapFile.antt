-- ===== src/Memory/MmapFile.antt =====
-- memory/mmap_file/main.c: a file that a child process changes through a mapping. The results of
-- `read`, and what `malloc` leaves in its buffer, are inputs; the other calls succeed.
pub mod Contents
use linux_programing_demo.Common.{
  ltb, ◌==◌, if◌then◌else◌, length, set, take, drop, overlay, ℕ, zero, suc, ◌+◌, ◌-◌, ◌%◌, min,
  Bool, Option, none, some, List, [], ◌∷◌,
}

-- `p[i] += 'A' - 'a'` of a byte.
abbrev pub to_upper : ℕ → ℕ
to_upper b = (b + (256 - 32)) % 256

-- The loop of `_childFunc` over the first `map_size` bytes of the mapping.
pub child_func : ℕ → List ℕ → List ℕ
child_func zero p = p
child_func (suc n) [] = []
child_func (suc n) (b ∷ p) = to_upper b ∷ child_func n p

-- `read(fd, buffer, n)`: up to so many bytes, or -1.
pub data Read : Type 0 where
  up_to : ℕ → Read
  read_failed : Read

-- The loop of `_fileContext`, `total` being `totalReadSize` and the offset of `fd`, and the NUL
-- that is stored after it; none if the results at hand end before it does.
pub read_all : List ℕ → ℕ → List Read → ℕ → List ℕ → Option (List ℕ)
read_all file file_size [] total buffer =
    if ltb total file_size then none else some (set buffer total 0)
read_all file file_size (read_failed ∷ rs) total buffer = some (set buffer total 0)
read_all file file_size (up_to k ∷ rs) total buffer =
    let bytes = take (min k (file_size - total)) (drop total file) in
    let size = length bytes in
    let rest = read_all file file_size rs (total + size) (overlay bytes buffer) in
    if ltb total file_size
    then (if size == 0 then some (set buffer total 0) else rest)
    else some (set buffer total 0)

-- `_fileContext` of a file that can be opened: the buffer that it returns. `fresh` is the
-- content of the memory that `malloc` returns, of `fileSize + 1` bytes.
pub file_context : List ℕ → List ℕ → List Read → Option (List ℕ)
unfolding read_all
file_context file fresh rs = read_all file (length file) rs 0 fresh

-- The file after the child's change: a private mapping is a copy.
pub change_mapped : Bool → List ℕ → List ℕ
unfolding child_func
change_mapped use_private file = if use_private then file else child_func (length file) file

-- What `main` prints as the file's content, in the child and then in the parent.
pub main : Bool → List ℕ → List ℕ → List Read → List Read → Option (List ℕ) × Option (List ℕ)
unfolding file_context change_mapped
main use_private text fresh child_reads parent_reads =
    let file = change_mapped use_private text in
    (file_context file fresh child_reads, file_context file fresh parent_reads)
