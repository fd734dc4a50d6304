-- ===== src/Expenses/Requests.antt =====
-- tp_backend/tp_api/expenses/router.py: the requests that change a trip's money, each through its
-- body's validators, and the databases that they reach.
pub mod Reached
use flight_pricing.Base.{
  ℕ, ◌≡◌, refl, Bool, true, false, Option, none, some, List, [], ◌∷◌, map, member, if◌then◌else◌,
}
use flight_pricing.Base.Result.{Result, ok, err, ◌>>=◌}
use flight_pricing.Models.{Db}
use flight_pricing.Models.Money.{Expense, Settlement}
use flight_pricing.Expenses.Schemas.{ExpenseIn, SettlementIn, validate_expense, validate_settlement}
use flight_pricing.Expenses.Service.{
  add_expense, edit_expense, remove_expense, add_settlement, remove_settlement,
}
use flight_pricing.Expenses.Include.{include_member}
use flight_pricing.Expenses.Invariant.{ids}

-- A request, with the uuid and the time that the handler would draw. The numbers are the trip, and
-- the cost, payment or user that the path names.
pub data Request : Type 0 where
  post_expense : ℕ → ExpenseIn → ℕ → ℕ → Request
  put_expense : ℕ → ℕ → ExpenseIn → Request
  delete_expense : ℕ → ℕ → Request
  post_include : ℕ → ℕ → List ℕ → Request
  post_settlement : ℕ → SettlementIn → ℕ → Request
  delete_settlement : ℕ → ℕ → Request

unfoldable pub handle : Db → Request → Result Db
handle db (post_expense trip_id body fresh now) = do
  valid ← validate_expense body
  done ← add_expense db trip_id valid fresh now
  ok done.0
handle db (put_expense trip_id expense_id body) = do
  valid ← validate_expense body
  done ← edit_expense db trip_id expense_id valid
  ok done.0
handle db (delete_expense trip_id expense_id) = remove_expense db trip_id expense_id
handle db (post_include trip_id user_id expense_ids) = do
  done ← include_member db trip_id user_id expense_ids
  ok done.0
handle db (post_settlement trip_id body fresh) = do
  valid ← validate_settlement body
  done ← add_settlement db trip_id valid fresh
  ok done.0
handle db (delete_settlement trip_id settlement_id) = remove_settlement db trip_id settlement_id

-- The uuid that a new cost is given is not in use.
abbrev pub is_fresh : Db → Request → Bool
is_fresh db (post_expense trip_id body fresh now) =
    if member fresh (ids db.expenses) then false else true
is_fresh db _ = true

-- A request that raises is rolled back.
abbrev pub settled : Db → Result Db → Db
settled db (ok db') = db'
settled db (err e) = db

-- The databases after any requests, failing ones among them.
pub data Reach (db : Db) : Db → Type 0 where
  here : Reach db db
  next :
      {db₁ : Db} (r : Request)
      → Reach db db₁
      → is_fresh db₁ r ≡ true
      → Reach db (settled db₁ (handle db₁ r))
