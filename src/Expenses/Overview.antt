-- ===== src/Expenses/Overview.antt =====
-- tp_backend/tp_api/expenses/service.py: what is read of a trip's money.
use flight_pricing.Base.{ℕ, Bool, false, not, ◌&&◌, List, [], ◌∷◌, ◌++◌, leb, ◌==◌, any, filter}
use flight_pricing.Base.Int.{ℤ, pos, negsuc}
use flight_pricing.Base.Sort.{sort_by}
use flight_pricing.Models.{Db}
use flight_pricing.Models.Money.{Expense, ExpenseShare, Settlement}
use flight_pricing.Expenses.Balances.{CurrencyBalance, MemberBalance, balances}
use flight_pricing.Expenses.Service.{live}
use flight_pricing.Expenses.Include.{by_date}

-- The join of `_ledger`: each share with its cost's currency.
abbrev pub with_currency : ℕ → List ExpenseShare → List (ExpenseShare × ℕ)
with_currency c [] = []
with_currency c (s ∷ ss) = (s, c) ∷ with_currency c ss

abbrev pub shares_with_currency : List Expense → List (ExpenseShare × ℕ)
shares_with_currency [] = []
shares_with_currency (e ∷ es) = with_currency e.currency e.shares ++ shares_with_currency es

-- `_ledger`
pub record Ledger : Type 0 where
  pub expenses : List Expense
  pub shares : List (ExpenseShare × ℕ)
  pub settlements : List Settlement

unfoldable pub ledger : Db → ℕ → Ledger
ledger db trip_id = record {
  expenses = sort_by by_date (live db trip_id);
  shares = shares_with_currency (live db trip_id);
  settlements =
      sort_by (λ a b. leb a.paid_on b.paid_on) (filter (λ s. s.trip_id == trip_id) db.settlements);
}

abbrev pub is_zero : ℤ → Bool
is_zero (pos n) = n == 0
is_zero (negsuc n) = false

-- `has_balance`: some figure of the user is not zero.
unfoldable pub has_balance : Db → ℕ → ℕ → Bool
unfolding ledger
has_balance db trip_id user_id =
    let l = ledger db trip_id in
    any
      (λ (pile : CurrencyBalance).
        any (λ (m : MemberBalance). m.user_id == user_id && not (is_zero m.net_cents)) pile.members)
      (balances l.expenses l.shares l.settlements)
