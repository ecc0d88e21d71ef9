-- ===== src/CString.antt =====
-- Command-line arguments as the programs read them: C strings as lists of bytes without the NUL.
use linux_programing_demo.Common.{
  leb, ◌==◌, if◌then◌else◌, ℤ, pos, negsuc, ℕ, zero, suc, ◌+◌, ◌-◌, ◌*◌, ◌≡◌, refl, Bool, true,
  false, ◌&&◌, ◌||◌, List, [], ◌∷◌,
}

abbrev pub CString : Type 0
CString = List ℕ

-- `s[0]`: the terminating NUL, if the string is empty.
abbrev pub first_char : CString → ℕ
first_char [] = 0
first_char (c ∷ s) = c

-- `strcmp(a, b) == 0`
unfoldable pub same_string : CString → CString → Bool
same_string [] [] = true
same_string (a ∷ s) (b ∷ t) = a == b && same_string s t
same_string _ _ = false

is_space : ℕ → Bool
is_space c = c == 32 || (leb 9 c && leb c 13)

is_digit : ℕ → Bool
is_digit c = leb 48 c && leb c 57

digits_from : ℕ → CString → ℕ
unfolding is_digit
digits_from acc [] = acc
digits_from acc (c ∷ s) =
    let rest = digits_from (acc * 10 + (c - 48)) s in if is_digit c then rest else acc

negated : ℕ → ℤ
negated zero = pos 0
negated (suc n) = negsuc n

signed : CString → ℤ
unfolding digits_from negated
signed [] = pos 0
signed (c ∷ s) =
    if c == b'-'
    then negated (digits_from 0 s)
    else (if c == b'+' then pos (digits_from 0 s) else pos (digits_from 0 (c ∷ s)))

-- `atoi`, for a value that fits an `int`: white space, a sign, digits up to the first other byte.
unfoldable pub atoi : CString → ℤ
unfolding is_space signed
atoi [] = pos 0
atoi (c ∷ s) = let rest = atoi s in if is_space c then rest else signed (c ∷ s)

abbrev pub dash_help : CString
dash_help = b'-' ∷ b'-' ∷ b'h' ∷ b'e' ∷ b'l' ∷ b'p' ∷ []

atoi_negative : atoi (32 ∷ b'-' ∷ b'4' ∷ b'2' ∷ b'x' ∷ []) ≡ negsuc 41
unfolding atoi
atoi_negative = refl
