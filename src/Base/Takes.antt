-- ===== src/Base/Takes.antt =====
-- The first and the later elements of a list.
use Prim.Native.Nat.{ℕ, zero, suc, ◌≤◌}
use mathlib.Core.Bool.{Bool}
use mathlib.Core.List.{List, [], ◌∷◌}
use native.Mathlib.Omega.{arith}
use flight_pricing.Base.Lists.{length, take, drop, All}
use flight_pricing.Base.Sort.{IsSorted}
use flight_pricing.Base.Sums.{sum_by}

module _ {ℓ κ} {A : Type ℓ} (P : A → Type κ) where
  pub All-take : (n : ℕ) (xs : List A) → All P xs → All P (take n xs)
  All-take zero xs h = tt
  All-take (suc n) [] h = tt
  All-take (suc n) (x ∷ xs) h = (h.0, All-take n xs h.1)

  pub All-drop : (n : ℕ) (xs : List A) → All P xs → All P (drop n xs)
  All-drop zero xs h = h
  All-drop (suc n) [] h = tt
  All-drop (suc n) (x ∷ xs) h = All-drop n xs h.1

module _ {ℓ} {A : Type ℓ} where
  pub length-take : (n : ℕ) (xs : List A) → length (take n xs) ≤ n
  length-take zero xs = omega arith
  length-take (suc n) [] = omega arith
  length-take (suc n) (x ∷ xs) = omega (arith, length-take n xs)

  pub sum_by-take : (f : A → ℕ) (n : ℕ) (xs : List A) → sum_by f (take n xs) ≤ sum_by f xs
  sum_by-take f zero xs = omega arith
  sum_by-take f (suc n) [] = omega arith
  sum_by-take f (suc n) (x ∷ xs) = omega (arith, sum_by-take f n xs)

  pub take-IsSorted :
      (le : A → A → Bool) (n : ℕ) (xs : List A) → IsSorted le xs → IsSorted le (take n xs)
  take-IsSorted le zero xs h = tt
  take-IsSorted le (suc n) [] h = tt
  take-IsSorted le (suc zero) (x ∷ []) h = tt
  take-IsSorted le (suc (suc n)) (x ∷ []) h = tt
  take-IsSorted le (suc zero) (x ∷ y ∷ ys) h = tt
  take-IsSorted le (suc (suc n)) (x ∷ y ∷ ys) h = (h.0, take-IsSorted le (suc n) (y ∷ ys) h.1)

  pub drop-IsSorted :
      (le : A → A → Bool) (n : ℕ) (xs : List A) → IsSorted le xs → IsSorted le (drop n xs)
  drop-IsSorted le zero xs h = h
  drop-IsSorted le (suc n) [] h = tt
  drop-IsSorted le (suc zero) (x ∷ []) h = tt
  drop-IsSorted le (suc (suc n)) (x ∷ []) h = tt
  drop-IsSorted le (suc n) (x ∷ y ∷ ys) h = drop-IsSorted le n (y ∷ ys) h.1
