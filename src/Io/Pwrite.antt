-- ===== src/Io/Pwrite.antt =====
-- io/pwrite/main.c: a `write` and a `pwrite` to a new file, and its offset before and after each. The
-- results of the calls are inputs; `lseek` does not fail.
pub mod Offset
use linux_programing_demo.Common.{
  ltb, leb, ◌==◌, if◌then◌else◌, ltb→lt, lt→ltb, leb→le, ==_iff, Bool-cases, Option-cases, ◌>>=◌,
  length, get_elem?, set, take, drop, replicate, All, length-append, take-append-drop, take-append,
  drop-append, length-take, length-drop, length-replicate, take_all, length-map, take-nil,
  take-snoc_lt, take-snoc_ge, overlay, length-overlay, store, store-overlay, All-snoc, pos_part,
  neg_part, sub_ℕ, ◌+ℤ◌, ◌-ℤ◌, ℤ, pos, negsuc, ℕ, zero, suc, ◌+◌, ◌-◌, ◌*◌, ◌/◌, ◌%◌, ◌^◌, ◌≤◌, ◌<◌,
  min, ◌≡◌, refl, sym, ap, subst, ◌∙◌, fun_ext, ◌≢◌, ◌↔◌, ◌⊎◌, inl, inr, Bool, true, false, not,
  ◌&&◌, ◌||◌, Option, none, some, List, [], ◌∷◌, ◌++◌, map, append_assoc, append-nil, arith,
  add_comm, add_assoc, add-zero, dec_lt, dec_le, ℕ_discrete,
}

-- The file, as its bytes and the offset of the open description.
pub record File : Type 0 where
  pub bytes : List ℕ
  pub offset : ℕ

abbrev pub empty : File
empty = record { bytes = []; offset = 0 }

-- The bytes after `xs` are put at `at`: a gap before them reads as zeros, and nothing grows without
-- bytes.
unfoldable pub put : ℕ → List ℕ → List ℕ → List ℕ
put at [] bytes = bytes
put at (x ∷ xs) bytes =
    take at bytes
    ++ replicate (at - length bytes) 0
    ++ (x ∷ xs)
    ++ drop (at + length (x ∷ xs)) bytes

-- `write`, with how many bytes it takes, or none when it fails.
unfoldable pub write : Option ℕ → List ℕ → File → File
unfolding put
write none text f = f
write (some n) text f = record { bytes = put f.offset (take n text) f.bytes; offset = f.offset + n }

unfoldable pub pwrite : Option ℕ → List ℕ → ℕ → File → File
unfolding put
pwrite none text at f = f
pwrite (some n) text at f = record f { bytes = put at (take n text) f.bytes }

abbrev pub text : List ℕ
text = b'a' ∷ b'b' ∷ b'c' ∷ b'd' ∷ []

-- What `main` prints: the offsets; the file at the end, and whether it is closed and removed.
pub record Shown : Type 0 where
  pub offset_first : ℕ
  pub offset_write : ℕ
  pub offset_pwrite : ℕ
  pub file : File
  pub removed : Bool

-- `main`, given the descriptor of `open`: none is the return of -1.
unfoldable pub main : Option ℕ → Option ℕ → Option ℕ → Option Shown
unfolding write pwrite
main none w p = none
main (some fd) w p =
    let f1 = write w text empty in
    let f2 = pwrite p text 4 f1 in
    some record {
      offset_first = empty.offset;
      offset_write = f1.offset;
      offset_pwrite = f2.offset;
      file = f2;
      removed = ltb 0 fd;
    }
