-- ===== src/Io/Pwrite/Offset.antt =====
-- `pwrite` does not move the offset.
use linux_programing_demo.Common.{
  take, replicate, ℕ, zero, suc, ◌-◌, ◌≤◌, ◌≡◌, refl, false, Option, none, some, [], ◌++◌, arith,
}
use linux_programing_demo.Io.Pwrite.{put, write, pwrite, text, Shown, main}

-- How many bytes the `write` took.
abbrev pub taken : Option ℕ → ℕ
taken none = 0
taken (some n) = n

put-text :
    (n : ℕ)
    → n ≤ 4
    → put 4 text (put 0 (take n text) []) ≡ take n text ++ replicate (4 - n) 0 ++ text
unfolding put
put-text zero h = refl
put-text (suc zero) h = refl
put-text (suc (suc zero)) h = refl
put-text (suc (suc (suc zero))) h = refl
put-text (suc (suc (suc (suc zero)))) h = refl
put-text (suc (suc (suc (suc (suc n))))) h = absurd (omega arith)

-- Whatever the `write`, of at most 4 bytes, and the `pwrite` return, the offset shown last is the one
-- after the `write`, the number of bytes that it took. When the `pwrite` takes its 4 bytes, the file
-- holds what the `write` took, zeros up to its place 4, and the text. It is removed unless the
-- descriptor is 0.
pub main-offsets :
    (fd : ℕ) (w p : Option ℕ) (r : Shown)
    → taken w ≤ 4
    → main (some fd) w p ≡ some r
    → (r.offset_first ≡ 0)
      × (r.offset_write ≡ taken w)
      × (r.offset_pwrite ≡ taken w)
      × (p ≡ some 4 → r.file.bytes ≡ take (taken w) text ++ replicate (4 - taken w) 0 ++ text)
      × (r.removed ≡ false → fd ≡ 0)
unfolding main write pwrite
main-offsets fd none p r le h =
    (ground arith, ground arith, ground arith, λ e. ground (arith, put-text 0 le), ground arith)
main-offsets fd (some n) p r le h =
    (ground arith, ground arith, ground arith, λ e. ground (arith, put-text n le), ground arith)
