-- ===== src/Io/Tmpfile/ReadBack.antt =====
-- What the test of the temporary file finds.
use linux_programing_demo.Common.{
  pos, ℕ, ◌≤◌, ◌≡◌, refl, ◌↔◌, Bool, true, false, Option, none, some, [], ◌∷◌, zero, suc, arith,
}
use linux_programing_demo.Io.Tmpfile.{buffer_is, stored, read_first, write_and_read}

-- The most that the `write` of one byte takes.
abbrev pub AtMostOne : Option ℕ → Type 0
AtMostOne none = Unit
AtMostOne (some n) = n ≤ 1

-- With a descriptor, the only line is that the byte read is the one written exactly when the `write`
-- took the byte and the `read` is without an error.
pub write_and_read_lem :
    (fd : ℕ) (w : Option ℕ) (reads : Bool)
    → AtMostOne w
    → (write_and_read (pos fd) w reads ≡ buffer_is b'a' true ∷ []) ↔ ((w ≡ some 1) × (reads ≡ true))
unfolding write_and_read stored read_first
write_and_read_lem fd none true le = (λ e. cc, λ e. cc)
write_and_read_lem fd none false le = (λ e. cc, λ e. cc)
write_and_read_lem fd (some zero) true le = (λ e. cc, λ e. cc)
write_and_read_lem fd (some zero) false le = (λ e. cc, λ e. cc)
write_and_read_lem fd (some (suc zero)) true le = (λ e. (refl, refl), λ e. refl)
write_and_read_lem fd (some (suc zero)) false le = (λ e. cc, λ e. cc)
write_and_read_lem fd (some (suc (suc n))) reads le = absurd (omega (arith, le))
