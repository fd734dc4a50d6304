-- ===== src/Base/Sums.antt =====
-- Sums over lists, of numbers and of integers.
use Prim.Native.Nat.{ℕ, ◌+◌}
use mathlib.Core.Path.{◌≡◌, refl}
use mathlib.Core.Bool.{true, false}
use mathlib.Core.List.{List, [], ◌∷◌, ◌++◌}
use native.Mathlib.Omega.{arith}
use flight_pricing.Base.Booleans.{◌==◌, if◌then◌else◌}
use flight_pricing.Base.Lists.{member, distinct}
use flight_pricing.Base.Int.{ℤ, pos, ◌+ℤ◌, ◌-ℤ◌, int_laws}

module _ {ℓ} {A : Type ℓ} where
  -- `sum(f(x) for x in xs)`
  abbrev pub sum_by : (A → ℕ) → List A → ℕ
  sum_by f [] = 0
  sum_by f (x ∷ xs) = f x + sum_by f xs

  -- The same over the integers.
  abbrev pub sum_ℤ : (A → ℤ) → List A → ℤ
  sum_ℤ f [] = pos 0
  sum_ℤ f (x ∷ xs) = f x +ℤ sum_ℤ f xs

  pub sum_by-append : (f : A → ℕ) (xs ys : List A) → sum_by f (xs ++ ys) ≡ sum_by f xs + sum_by f ys
  sum_by-append f [] ys = omega arith
  sum_by-append f (x ∷ xs) ys = omega (arith, sum_by-append f xs ys)

  pub sum_ℤ-add :
      (f g : A → ℤ) (xs : List A) → sum_ℤ (λ x. f x +ℤ g x) xs ≡ sum_ℤ f xs +ℤ sum_ℤ g xs
  sum_ℤ-add f g [] = omega int_laws
  sum_ℤ-add f g (x ∷ xs) = grind (int_laws, sum_ℤ-add f g xs)

  pub sum_ℤ-sub :
      (f g : A → ℤ) (xs : List A) → sum_ℤ (λ x. f x -ℤ g x) xs ≡ sum_ℤ f xs -ℤ sum_ℤ g xs
  sum_ℤ-sub f g [] = omega int_laws
  sum_ℤ-sub f g (x ∷ xs) = grind (int_laws, sum_ℤ-sub f g xs)

  pub sum_ℤ-zero : (xs : List A) → sum_ℤ (λ _. pos 0) xs ≡ pos 0
  sum_ℤ-zero [] = refl
  sum_ℤ-zero (x ∷ xs) = grind (int_laws, sum_ℤ-zero xs)

-- A value that stands at one key only: absent keys count nothing.
sum_ℤ-absent :
    (k : ℕ) (v : ℤ) (xs : List ℕ)
    → member k xs ≡ false
    → sum_ℤ (λ u. if k == u then v else pos 0) xs ≡ pos 0
sum_ℤ-absent k v [] h = refl
sum_ℤ-absent k v (x ∷ xs) h = grind (int_laws, sum_ℤ-absent k v xs)

-- A value that stands at one key only is the sum over any distinct keys that hold it.
pub sum_ℤ-single :
    (k : ℕ) (v : ℤ) (xs : List ℕ)
    → distinct xs ≡ true
    → member k xs ≡ true
    → sum_ℤ (λ u. if k == u then v else pos 0) xs ≡ v
sum_ℤ-single k v [] d h = cc
sum_ℤ-single k v (x ∷ xs) d h = grind (int_laws, sum_ℤ-single k v xs, sum_ℤ-absent k v xs)
