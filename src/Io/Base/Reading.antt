-- ===== src/Io/Base/Reading.antt =====
-- What io/base/main.c shows.
use linux_programing_demo.Common.{
  length, take, replicate, length-take, pos, ℕ, zero, suc, ◌+◌, ◌≤◌, ◌≡◌, refl, ap, true, List, [],
  ◌∷◌, ◌++◌, map, arith,
}
use linux_programing_demo.Io.Base.{Line, read_rounds, shown, text, main}

abbrev pub byte_line : ℕ → Line
byte_line c = record { size = 1; char = c }

abbrev pub end_line : Line
end_line = record { size = 0; char = 0 }

read_rounds-end : (rounds : ℕ) → read_rounds rounds [] ≡ replicate rounds end_line
unfolding read_rounds
read_rounds-end zero = refl
read_rounds-end (suc rounds) = ap (end_line ∷◌) (read_rounds-end rounds)

read_rounds-more :
    (left : List ℕ) (more : ℕ)
    → read_rounds (length left + more) left ≡ map byte_line left ++ replicate more end_line
unfolding read_rounds
read_rounds-more [] more = let z : 0 + more ≡ more = omega arith in rw z (read_rounds-end more)
read_rounds-more (c ∷ left) more =
    let z : suc (length left) + more ≡ suc (length left + more) = omega arith in
    rw z (ap (byte_line c ∷◌) (read_rounds-more left more))

-- When `write` puts n of the four bytes into the file, the n bytes are shown, one in each line, and after
-- them three reads of nothing.
pub main-shown_all :
    (n : ℕ)
    → n ≤ 4
    → main true (pos n) ≡ shown (pos n) (map byte_line (take n text) ++ replicate 3 end_line)
unfolding main
main-shown_all n le =
    let size : length (take n text) ≡ n = omega (arith, length-take n text, le) in
    ap (shown (pos n)) (rw size at (read_rounds-more (take n text) 3))
