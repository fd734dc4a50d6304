-- ===== src/Base/Sort.antt =====
-- Python's `sorted` with a key, as a stable insertion sort: `le x y` says that x may stay before y.
use Prim.Native.Nat.{ℕ, suc, ◌+◌}
use mathlib.Core.Path.{◌≡◌, refl}
use mathlib.Core.Bool.{Bool, true, false, not, ◌&&◌, ◌||◌}
use mathlib.Core.List.{List, [], ◌∷◌}
use native.Mathlib.Omega.{arith}
use flight_pricing.Base.Booleans.{◌==◌, if◌then◌else◌, leb, Bool-cases}
use mathlib.Core.Logic.{inl, inr}
use flight_pricing.Base.Lists.{length, member, distinct, All}
use flight_pricing.Base.Sums.{sum_by}

module _ {ℓ} {A : Type ℓ} where
  abbrev pub insert_by : (A → A → Bool) → A → List A → List A
  insert_by le x [] = x ∷ []
  insert_by le x (y ∷ ys) = if le x y then x ∷ y ∷ ys else y ∷ insert_by le x ys

  abbrev pub sort_by : (A → A → Bool) → List A → List A
  sort_by le [] = []
  sort_by le (x ∷ xs) = insert_by le x (sort_by le xs)

  sum_by-insert_by :
      (le : A → A → Bool) (f : A → ℕ) (x : A) (xs : List A)
      → sum_by f (insert_by le x xs) ≡ f x + sum_by f xs
  sum_by-insert_by le f x [] = refl
  sum_by-insert_by le f x (y ∷ ys) = ground (arith, sum_by-insert_by le f x ys)

  pub sum_by-sort_by :
      (le : A → A → Bool) (f : A → ℕ) (xs : List A) → sum_by f (sort_by le xs) ≡ sum_by f xs
  sum_by-sort_by le f [] = refl
  sum_by-sort_by le f (x ∷ xs) =
      omega (arith, sum_by-insert_by le f x (sort_by le xs), sum_by-sort_by le f xs)

  length-insert_by :
      (le : A → A → Bool) (x : A) (xs : List A) → length (insert_by le x xs) ≡ suc (length xs)
  length-insert_by le x [] = refl
  length-insert_by le x (y ∷ ys) = ground (arith, length-insert_by le x ys)

  pub length-sort_by : (le : A → A → Bool) (xs : List A) → length (sort_by le xs) ≡ length xs
  length-sort_by le [] = refl
  length-sort_by le (x ∷ xs) =
      omega (arith, length-insert_by le x (sort_by le xs), length-sort_by le xs)

  -- Each element may stay before the next one.
  abbrev pub IsSorted : (A → A → Bool) → List A → Type 0
  IsSorted le [] = Unit
  IsSorted le (x ∷ []) = Unit
  IsSorted le (x ∷ y ∷ ys) = (le x y ≡ true) × IsSorted le (y ∷ ys)

  insert_by-IsSorted :
      (le : A → A → Bool)
      → ((x y : A) → le x y ≡ false → le y x ≡ true)
      → (x : A) (xs : List A) → IsSorted le xs
      → IsSorted le (insert_by le x xs)
  insert_by-IsSorted le total x [] h = tt
  insert_by-IsSorted le total x (y ∷ []) h = ground (arith, total x y)
  insert_by-IsSorted le total x (y ∷ z ∷ zs) h =
      ground (arith, total x y, total x z, insert_by-IsSorted le total x (z ∷ zs) h.1)

  pub sort_by-IsSorted :
      (le : A → A → Bool)
      → ((x y : A) → le x y ≡ false → le y x ≡ true)
      → (xs : List A) → IsSorted le (sort_by le xs)
  sort_by-IsSorted le total [] = tt
  sort_by-IsSorted le total (x ∷ xs) =
      insert_by-IsSorted le total x (sort_by le xs) (sort_by-IsSorted le total xs)

  -- Sorting by one order sorts by another that it decides.
  insert_by-IsSorted_by :
      (le to : A → A → Bool)
      → ((x y : A) → le x y ≡ true → to x y ≡ true)
      → ((x y : A) → le x y ≡ false → to y x ≡ true)
      → (x : A) (xs : List A) → IsSorted to xs
      → IsSorted to (insert_by le x xs)
  insert_by-IsSorted_by le to ahead behind x [] h = tt
  insert_by-IsSorted_by le to ahead behind x (y ∷ []) h = ground (arith, ahead x y, behind x y)
  insert_by-IsSorted_by le to ahead behind x (y ∷ z ∷ zs) h = ground (
    arith,
    ahead x y,
    behind x y,
    ahead x z,
    behind x z,
    insert_by-IsSorted_by le to ahead behind x (z ∷ zs) h.1,
  )

  pub sort_by-IsSorted_by :
      (le to : A → A → Bool)
      → ((x y : A) → le x y ≡ true → to x y ≡ true)
      → ((x y : A) → le x y ≡ false → to y x ≡ true)
      → (xs : List A) → IsSorted to (sort_by le xs)
  sort_by-IsSorted_by le to ahead behind [] = tt
  sort_by-IsSorted_by le to ahead behind (x ∷ xs) =
      insert_by-IsSorted_by le to ahead behind x (sort_by le xs)
        (sort_by-IsSorted_by le to ahead behind xs)

module _ {ℓ κ} {A : Type ℓ} (P : A → Type κ) where
  All-insert_by :
      (le : A → A → Bool) (x : A) (xs : List A) → P x → All P xs → All P (insert_by le x xs)
  All-insert_by le x [] p h = (p, tt)
  All-insert_by le x (y ∷ ys) p h = ground (arith, All-insert_by le x ys p h.1)

  pub All-sort_by : (le : A → A → Bool) (xs : List A) → All P xs → All P (sort_by le xs)
  All-sort_by le [] h = tt
  All-sort_by le (x ∷ xs) h = All-insert_by le x (sort_by le xs) h.0 (All-sort_by le xs h.1)

  All-of_insert_by :
      (le : A → A → Bool) (x : A) (xs : List A) → All P (insert_by le x xs) → P x × All P xs
  All-of_insert_by le x [] h = h
  All-of_insert_by le x (y ∷ ys) h = elim (Bool-cases (le x y)) [
    | inl first ↦ let k : All P (x ∷ y ∷ ys) = rw first at h in k
    | inr later ↦
        let k : All P (y ∷ insert_by le x ys) = rw later at h in
        let r = All-of_insert_by le x ys k.1 in (r.0, (k.0, r.1))
  ]

  pub All-of_sort_by : (le : A → A → Bool) (xs : List A) → All P (sort_by le xs) → All P xs
  All-of_sort_by le [] h = tt
  All-of_sort_by le (x ∷ xs) h =
      let r = All-of_insert_by le x (sort_by le xs) h in (r.0, All-of_sort_by le xs r.1)

-- `sorted(ids)`
abbrev pub sort_ids : List ℕ → List ℕ
sort_ids = sort_by leb

member-insert_by : (a x : ℕ) (xs : List ℕ) → member a (insert_by leb x xs) ≡ (a == x || member a xs)
member-insert_by a x [] = refl
member-insert_by a x (y ∷ ys) = ground (arith, member-insert_by a x ys)

pub member-sort_ids : (a : ℕ) (xs : List ℕ) → member a (sort_ids xs) ≡ member a xs
member-sort_ids a [] = refl
member-sort_ids a (x ∷ xs) =
    ground (arith, member-insert_by a x (sort_ids xs), member-sort_ids a xs)

distinct-insert_by :
    (x : ℕ) (xs : List ℕ) → distinct (insert_by leb x xs) ≡ (not (member x xs) && distinct xs)
distinct-insert_by x [] = refl
distinct-insert_by x (y ∷ ys) = ground (arith, distinct-insert_by x ys, member-insert_by y x ys)

pub distinct-sort_ids : (xs : List ℕ) → distinct (sort_ids xs) ≡ distinct xs
distinct-sort_ids [] = refl
distinct-sort_ids (x ∷ xs) =
    ground (arith, distinct-insert_by x (sort_ids xs), member-sort_ids x xs, distinct-sort_ids xs)
