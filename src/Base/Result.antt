-- ===== src/Base/Result.antt =====
-- Calls that raise: an `HTTPException` by its message, or one of Python's own errors.
use mathlib.Core.Path.{◌≡◌, refl}
use mathlib.Core.Logic.{◌⊎◌, inl, inr}
use mathlib.Core.Bool.{Bool, true, false}

pub data Error : Type 0 where
  -- `ZeroDivisionError`, from a split over nobody.
  zero_division : Error
  -- A body that the request's validators refuse.
  invalid_body : Error
  no_such_trip no_such_user no_such_expense no_such_payment not_a_member : Error
  outsider wrong_payee : Error
  paid_before_edit paid_before_delete over_share : Error
  owner_role owner_stays still_owes : Error
  remove_other view_only owner_only : Error
  outside_trip day_twice past_end outside_window block_twice stray_city not_on_trip : Error
  not_a_city lookup_failed all_days_taken city_off_trip : Error
  -- `IndexError`, from a subscript past the end.
  index_error : Error
  -- A call of the model, or the budget before it.
  model_failed : Error

-- What a call returns, or the error that it raises.
pub data Result {ℓ} (A : Type ℓ) : Type ℓ where
  err : Error → Result A
  ok : A → Result A

-- Raises where the test holds.
abbrev pub raise_if : Bool → Error → Result (Unit {0})
raise_if false problem = ok tt
raise_if true problem = err problem

-- The statements of a body, one after the other: an error ends it.
infixl 5 ◌>>=◌
abbrev pub ◌>>=◌ {κ ν} : {X : Type κ} {Y : Type ν} → Result X → (X → Result Y) → Result Y
err problem >>= next = err problem
ok value >>= next = next value

infixl 5 ◌>>◌
abbrev pub ◌>>◌ {ν} : {Y : Type ν} → Result (Unit {0}) → Result Y → Result Y
first >> second = first >>= (λ done. second)

pub raise_if-ok : (b : Bool) (problem : Error) → raise_if b problem ≡ ok tt → b ≡ false
raise_if-ok false problem h = refl
raise_if-ok true problem h = cc

-- A sequence that succeeds: its first part returned a value, from which the rest went on.
pub >>=-eq-ok {κ ν} :
    {X : Type κ} {Y : Type ν} (before : Result X) (next : X → Result Y) {y : Y}
    → (before >>= next) ≡ ok y
    → (x : X) × (before ≡ ok x) × (next x ≡ ok y)
>>=-eq-ok (err problem) next h = cc
>>=-eq-ok (ok value) next h = (value, refl, h)

pub Result-cases {κ} :
    {X : Type κ} (r : Result X) → ((e : Error) × (r ≡ err e)) ⊎ ((x : X) × (r ≡ ok x))
Result-cases (err problem) = inl (problem, refl)
Result-cases (ok value) = inr (value, refl)
