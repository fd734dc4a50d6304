-- ===== src/Expenses/Invariant.antt =====
-- What the costs and payments of the database satisfy between requests.
pub mod Tables
pub mod Amounts
pub mod Costs
pub mod Payments
pub mod Include
use flight_pricing.Base.{
  ℕ, ◌≡◌, Bool, true, false, not, ◌&&◌, Option, none, some, List, map, ◌==◌, All, all, distinct,
}
use flight_pricing.Models.{Db}
use flight_pricing.Models.Money.{Expense, Settlement}
use flight_pricing.Expenses.Split.{total, users_of}
use flight_pricing.Expenses.Service.{row}

-- The shares of a cost add up to it, one for each person.
abbrev pub Adds : Expense → Type 0
Adds e = (total e.shares ≡ e.amount_cents) × (distinct (users_of e.shares) ≡ true)

-- A payment that names a cost names a live one of its own trip, and goes to whoever paid the cost,
-- in the cost's currency.
abbrev pub fits : Settlement → Option Expense → Bool
fits s none = false
fits s (some e) =
    not e.deleted
    && s.to_user_id == e.payer_id
    && s.currency == e.currency
    && s.trip_id == e.trip_id

abbrev pub is_backed : List Expense → Settlement → Bool
is_backed es s = elim s.expense_id [ none ↦ true | some x ↦ fits s (row x es) ]

abbrev pub ids : List Expense → List ℕ
ids = map (λ e. e.expense_id)

pub record IsSound (db : Db) : Type 0 where
  pub keyed : distinct (ids db.expenses) ≡ true
  pub adds : All Adds db.expenses
  pub backed : all (is_backed db.expenses) db.settlements ≡ true
