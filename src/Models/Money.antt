-- ===== src/Models/Money.antt =====
-- tp_backend/libs/db/models.py: a cost with its shares, and a payment between two members.
use flight_pricing.Base.{ℕ, Bool, Option, List}
use flight_pricing.Base.Text.{Text}

pub record ExpenseShare : Type 0 where
  pub user_id : ℕ
  pub amount_cents : ℕ

-- The relationship `shares` stands in the row, since the code reads and replaces it whole.
pub record Expense : Type 0 where
  pub expense_id : ℕ
  pub trip_id : ℕ
  pub payer_id : ℕ
  pub description : Text
  pub amount_cents : ℕ
  pub currency : ℕ
  pub spent_on : ℕ
  pub block_id : Option ℕ
  pub category : Option Text
  pub deleted : Bool
  pub created_at : ℕ
  pub shares : List ExpenseShare

pub record Settlement : Type 0 where
  pub settlement_id : ℕ
  pub trip_id : ℕ
  pub from_user_id : ℕ
  pub to_user_id : ℕ
  pub expense_id : Option ℕ
  pub amount_cents : ℕ
  pub currency : ℕ
  pub paid_on : ℕ
