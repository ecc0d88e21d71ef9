-- ===== src/Threads/Family.antt =====
-- Families indexed by thread: an update at one thread, and sums over the first n threads.
use linux_programing_demo.Common.{
  ◌==◌, if◌then◌else◌, ℕ, zero, suc, ◌+◌, ◌*◌, ◌≤◌, ◌<◌, ◌≡◌, refl, arith, dec_lt,
}

abbrev pub update {ℓ} : {A : Type ℓ} → (ℕ → A) → ℕ → A → ℕ → A
update f i a j = if i == j then a else f j

module _ {ℓ} {A : Type ℓ} (weight : A → ℕ) where
  unfoldable pub total : ℕ → (ℕ → A) → ℕ
  total zero f = 0
  total (suc n) f = weight (f n) + total n f

  total-update_beyond : (n i : ℕ) (f : ℕ → A) (a : A) → n ≤ i → total n (update f i a) ≡ total n f
  unfolding total
  total-update_beyond zero i f a h = refl
  total-update_beyond (suc n) i f a h = ground (arith, total-update_beyond n i f a)

  -- A sum changes by what changes at the one thread.
  pub total-update :
      (n i : ℕ) (f : ℕ → A) (a : A)
      → i < n
      → total n (update f i a) + weight (f i) ≡ total n f + weight a
  unfolding total
  total-update zero i f a h = absurd (omega arith)
  total-update (suc n) i f a h = elim (dec_lt i n) [
    | yes inner ↦ ground (arith, total-update n i f a inner)
    | no outer ↦ ground (arith, total-update_beyond n i f a)
  ]

  pub total-const : (n k : ℕ) (f : ℕ → A) → ((i : ℕ) → i < n → weight (f i) ≡ k) → total n f ≡ n * k
  unfolding total
  total-const zero k f h = omega arith
  total-const (suc n) k f h =
      omega (arith, h n (omega arith), total-const n k f (λ i lt. h i (omega arith)))

  pub total-le : (n k : ℕ) (f : ℕ → A) → ((i : ℕ) → i < n → weight (f i) ≤ k) → total n f ≤ n * k
  unfolding total
  total-le zero k f h = omega arith
  total-le (suc n) k f h =
      omega (arith, h n (omega arith), total-le n k f (λ i lt. h i (omega arith)))
