-- ===== src/Common/Lists.antt =====
-- Lists measured and indexed by native numbers, under the library's names.
use Prim.Native.Nat.{ℕ, zero, suc, ◌+◌, ◌-◌, ◌≤◌, min}
use mathlib.Core.Path.{◌≡◌, refl, ap}
use mathlib.Core.List.{List, [], ◌∷◌, ◌++◌, map}
use mathlib.Core.Option.{Option, none, some}
use native.Mathlib.Omega.{arith}

module _ {ℓ} {A : Type ℓ} where
  abbrev pub length : List A → ℕ
  length [] = 0
  length (x ∷ xs) = suc (length xs)

  abbrev pub get_elem? : List A → ℕ → Option A
  get_elem? [] i = none
  get_elem? (x ∷ xs) zero = some x
  get_elem? (x ∷ xs) (suc i) = get_elem? xs i

  abbrev pub set : List A → ℕ → A → List A
  set [] i v = []
  set (x ∷ xs) zero v = v ∷ xs
  set (x ∷ xs) (suc i) v = x ∷ set xs i v

  abbrev pub take : ℕ → List A → List A
  take zero xs = []
  take (suc n) [] = []
  take (suc n) (x ∷ xs) = x ∷ take n xs

  abbrev pub drop : ℕ → List A → List A
  drop zero xs = xs
  drop (suc n) [] = []
  drop (suc n) (x ∷ xs) = drop n xs

  abbrev pub replicate : ℕ → A → List A
  replicate zero a = []
  replicate (suc n) a = a ∷ replicate n a

  -- A predicate of every element, by recursion.
  abbrev pub All {κ} : (A → Type κ) → List A → Type κ
  All P [] = Unit
  All P (x ∷ xs) = P x × All P xs

  pub length-append : (xs ys : List A) → length (xs ++ ys) ≡ length xs + length ys
  length-append [] ys = omega arith
  length-append (x ∷ xs) ys = omega (arith, length-append xs ys)

  pub take-append-drop : (n : ℕ) (xs : List A) → take n xs ++ drop n xs ≡ xs
  take-append-drop zero xs = refl
  take-append-drop (suc n) [] = refl
  take-append-drop (suc n) (x ∷ xs) = rw (take-append-drop n xs)

  pub take-append : (xs ys : List A) → take (length xs) (xs ++ ys) ≡ xs
  take-append [] ys = refl
  take-append (x ∷ xs) ys = ap (λ r. x ∷ r) (take-append xs ys)

  pub drop-append : (xs ys : List A) → drop (length xs) (xs ++ ys) ≡ ys
  drop-append [] ys = refl
  drop-append (x ∷ xs) ys = drop-append xs ys

  pub length-take : (n : ℕ) (xs : List A) → length (take n xs) ≡ min n (length xs)
  length-take zero xs = omega arith
  length-take (suc n) [] = omega arith
  length-take (suc n) (x ∷ xs) = omega (arith, length-take n xs)

  pub length-drop : (n : ℕ) (xs : List A) → length (drop n xs) ≡ length xs - n
  length-drop zero xs = omega arith
  length-drop (suc n) [] = omega arith
  length-drop (suc n) (x ∷ xs) = omega (arith, length-drop n xs)

  pub length-replicate : (n : ℕ) (a : A) → length (replicate n a) ≡ n
  length-replicate zero a = refl
  length-replicate (suc n) a = ap suc (length-replicate n a)

  pub take_all : (n : ℕ) (xs : List A) → length xs ≤ n → take n xs ≡ xs
  take_all zero [] h = refl
  take_all zero (x ∷ xs) h = absurd (omega arith)
  take_all (suc n) [] h = refl
  take_all (suc n) (x ∷ xs) h = ap (λ r. x ∷ r) (take_all n xs (omega arith))

pub length-map {ℓ κ} :
    {A : Type ℓ} {B : Type κ} (xs : List A) (f : A → B) → length (map f xs) ≡ length xs
length-map [] f = refl
length-map (x ∷ xs) f = ap suc (length-map xs f)

module _ {ℓ} {A : Type ℓ} where
  pub take-nil : (k : ℕ) → take {A = A} k [] ≡ []
  take-nil zero = refl
  take-nil (suc k) = refl

  pub take-snoc_lt :
      (k : ℕ) (xs : List A) (x : A)
      → length xs + 1 ≤ k
      → take k (xs ++ x ∷ []) ≡ take k xs ++ x ∷ []
  take-snoc_lt zero xs x h = absurd (omega arith)
  take-snoc_lt (suc k) [] x h = ap (λ r. x ∷ r) (take-nil k)
  take-snoc_lt (suc k) (y ∷ ys) x h = ap (λ r. y ∷ r) (take-snoc_lt k ys x (omega arith))

  pub take-snoc_ge :
      (k : ℕ) (xs : List A) (x : A) → k ≤ length xs → take k (xs ++ x ∷ []) ≡ take k xs
  take-snoc_ge zero xs x h = refl
  take-snoc_ge (suc k) [] x h = absurd (omega arith)
  take-snoc_ge (suc k) (y ∷ ys) x h = ap (λ r. y ∷ r) (take-snoc_ge k ys x (omega arith))

  -- `xs` written over the first cells of `buf`.
  abbrev pub overlay : List A → List A → List A
  overlay [] buf = buf
  overlay (x ∷ xs) [] = []
  overlay (x ∷ xs) (b ∷ buf) = x ∷ overlay xs buf

  pub length-overlay : (xs buf : List A) → length (overlay xs buf) ≡ length buf
  length-overlay [] buf = refl
  length-overlay (x ∷ xs) [] = refl
  length-overlay (x ∷ xs) (b ∷ buf) = ap suc (length-overlay xs buf)

  -- A checked write: `none` is a write outside of the buffer.
  abbrev pub store : List A → ℕ → A → Option (List A)
  store [] i v = none
  store (x ∷ xs) zero v = some (v ∷ xs)
  store (x ∷ xs) (suc i) v = elim (store xs i v) [ none ↦ none | some ys ↦ some (x ∷ ys) ]

  pub store-overlay :
      (xs buf : List A) (v : A)
      → length xs + 1 ≤ length buf
      → store (overlay xs buf) (length xs) v ≡ some (overlay (xs ++ v ∷ []) buf)
  store-overlay [] [] v h = absurd (omega arith)
  store-overlay [] (b ∷ buf) v h = refl
  store-overlay (x ∷ xs) [] v h = absurd (omega arith)
  store-overlay (x ∷ xs) (b ∷ buf) v h = cc (store-overlay xs buf v (omega arith))

pub All-snoc {ℓ κ} :
    {A : Type ℓ} (P : A → Type κ) (xs : List A) (x : A) → All P xs → P x → All P (xs ++ x ∷ [])
All-snoc P [] x h p = (p, tt)
All-snoc P (y ∷ xs) x h p = (h.0, All-snoc P xs x h.1 p)
