-- ===== src/Expenses/Schemas.antt =====
-- tp_backend/tp_api/expenses/schemas.py: the request bodies and their validators.
use flight_pricing.Base.{
  ℕ, ◌^◌, Bool, true, false, not, ◌&&◌, ◌||◌, Option, none, some, List, [], ◌∷◌, map, leb, ltb,
  ◌==◌, if◌then◌else◌, distinct, length, all,
}
use flight_pricing.Base.Sums.{sum_by}
use flight_pricing.Base.Text.{Text, split, unwords}
use flight_pricing.Base.Result.{Result, ok, invalid_body, raise_if, ◌>>◌}

pub record ShareIn : Type 0 where
  pub user_id : ℕ
  pub amount_cents : ℕ

pub record ExpenseIn : Type 0 where
  pub description : Text
  pub amount_cents : ℕ
  pub currency : ℕ
  pub spent_on : ℕ
  pub payer_id : ℕ
  pub block_id : Option ℕ
  pub category : Option Text
  pub participants : List ℕ
  pub shares : List ShareIn

pub record SettlementIn : Type 0 where
  pub from_user_id : ℕ
  pub to_user_id : ℕ
  pub expense_id : Option ℕ
  pub amount_cents : ℕ
  pub currency : ℕ
  pub paid_on : ℕ

-- `bool(xs)`
abbrev pub truthy {ℓ} : {A : Type ℓ} → List A → Bool
truthy [] = false
truthy (x ∷ xs) = true

-- `Money = Field(gt=0, le=10**12)`
abbrev pub is_money : ℕ → Bool
is_money n = ltb 0 n && leb n (10 ^ 12)

-- `_tidy`: the words of the category, or none.
unfoldable pub tidy : Option Text → Option Text
tidy none = none
tidy (some t) = let u = unwords (split t) in if truthy u then some u else none

-- `_one_split`: exactly one of the two ways to split, shares that add up, and one share a person.
unfoldable pub one_split : ExpenseIn → Result (Unit {0})
one_split body = do
  raise_if
      ((truthy body.participants && truthy body.shares)
        || (not (truthy body.participants) && not (truthy body.shares)))
      invalid_body
  raise_if
      (truthy body.shares && not (sum_by (λ s. s.amount_cents) body.shares == body.amount_cents))
      invalid_body
  raise_if (not (distinct (map (λ s. s.user_id) body.shares))) invalid_body
  raise_if (not (distinct body.participants)) invalid_body

abbrev pub too_long : ℕ → Option Text → Bool
too_long n none = false
too_long n (some t) = ltb n (length t)

-- The whole of `ExpenseIn`'s validation of amounts and splits, in the order of the fields.
unfoldable pub validate_expense : ExpenseIn → Result ExpenseIn
unfolding tidy one_split
validate_expense body = do
  raise_if (not (leb 1 (length body.description) && leb (length body.description) 200)) invalid_body
  raise_if (not (is_money body.amount_cents)) invalid_body
  raise_if (too_long 40 (tidy body.category)) invalid_body
  raise_if (not (all (λ s. leb s.amount_cents (10 ^ 12)) body.shares)) invalid_body
  one_split body
  ok (record body { category = tidy body.category })

-- `Money` and `_two_people`
unfoldable pub validate_settlement : SettlementIn → Result SettlementIn
validate_settlement body = do
  raise_if (not (is_money body.amount_cents)) invalid_body
  raise_if (body.from_user_id == body.to_user_id) invalid_body
  ok body
