-- ===== src/Time/Ticks/Range.antt =====
-- Which times `clock` is shown for.
use linux_programing_demo.Common.{
  ltb, ◌==◌, Bool-cases, ℤ, pos, negsuc, ℕ, zero, suc, ◌+◌, ◌-◌, ◌*◌, ◌/◌, ◌%◌, ◌^◌, ◌≤◌, ◌<◌, ◌≡◌,
  refl, subst, inl, inr, some, arith,
}
use linux_programing_demo.Time.Ticks.{int_of, u32, minus, quotient, clock_ms}

abbrev pub magnitude : ℤ → ℕ
magnitude (pos n) = n
magnitude (negsuc n) = n + 1

magnitude-minus : (n : ℕ) → magnitude (minus n) ≡ n
magnitude-minus zero = refl
magnitude-minus (suc n) = omega arith

quotient-range : (v : ℕ) → v < 2 ^ 32 → magnitude (quotient (int_of v) 1000000) ≤ 2147
quotient-range v h = elim (Bool-cases (ltb v (2 ^ 31))) [
  | inl positive ↦ rw positive (ground arith)
  | inr negative ↦ rw negative (ground (arith, magnitude-minus ((2 ^ 32 - v - 1 + 1) / 1000000)))
]

-- Below 2147484 microseconds of used time, what is shown of `clock` is its milliseconds.
pub clock_ms_exact : (ticks : ℕ) → ticks < 2147484 → clock_ms ticks ≡ some (pos (ticks / 1000))
unfolding clock_ms
clock_ms_exact ticks small =
    let low : ticks % 2 ^ 32 ≡ ticks = omega (arith, small) in
    let product : ticks * 1000 % 2 ^ 32 ≡ ticks * 1000 = omega (arith, small) in
    let same : ticks * 1000 / 1000000 ≡ ticks / 1000 = omega arith in
    ground (arith, low, product, same, small)

-- Whatever the used time is, no more than 2147 milliseconds are shown of `clock`, above or below 0: longer
-- times are shown wrong.
pub clock_ms-range : (ticks : ℕ) (v : ℤ) → clock_ms ticks ≡ some v → magnitude v ≤ 2147
unfolding clock_ms
clock_ms-range ticks v h = elim (Bool-cases (u32 ticks == 2 ^ 32 - 1)) [
  | inl error ↦ absurd (ground (arith, error))
  | inr shown ↦
      let is : quotient (int_of (u32 (u32 ticks * 1000))) 1000000 ≡ v = ground (arith, shown) in
      subst (λ q. magnitude q ≤ 2147) is (quotient-range (u32 (u32 ticks * 1000)) (omega arith))
]
