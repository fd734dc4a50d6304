-- ===== src/Expenses/Service.antt =====
-- tp_backend/tp_api/expenses/service.py: the operations on the costs and payments of a trip. Each
-- takes the database and returns the new one with its result, or raises and commits nothing.
-- Row locks are not modelled: an operation is one step. A fresh uuid and the clock are arguments.
use flight_pricing.Base.{
  ℕ, ◌+◌, ◌≡◌, Bool, true, false, not, ◌&&◌, ◌||◌, Option, none, some, List, [], ◌∷◌, ◌++◌, map,
  ltb, ◌==◌, opt_eq, if◌then◌else◌, member, any, find, filter, dedup, Bool-cases, inl, inr,
}
use flight_pricing.Base.Sums.{sum_by}
use flight_pricing.Base.Sort.{sort_ids}
use flight_pricing.Base.Text.{strip}
use flight_pricing.Base.Result.{
  Result, ok, err, raise_if, ◌>>=◌, ◌>>◌, outsider, no_such_expense, no_such_payment,
  paid_before_edit, paid_before_delete, wrong_payee, over_share,
}
use flight_pricing.Models.{Db}
use flight_pricing.Models.People.{UserTrip}
use flight_pricing.Models.Money.{Expense, ExpenseShare, Settlement}
use flight_pricing.Expenses.Split.{insert, split_evenly, users_of}
use flight_pricing.Expenses.Schemas.{ExpenseIn, ShareIn, SettlementIn, truthy}

-- `_member_ids`
abbrev pub member_ids : Db → ℕ → List ℕ
member_ids db trip_id =
    dedup (map (λ (r : UserTrip). r.user_id) (filter (λ r. r.trip_id == trip_id) db.user_trips))

-- `_check_people`: everybody is a member of the trip, or was on the cost already.
unfoldable pub check_people : Db → ℕ → List ℕ → List ℕ → Result (Unit {0})
check_people db trip_id user_ids already =
    raise_if (any (λ u. not (member u (member_ids db trip_id) || member u already)) user_ids)
      outsider

-- `_live`
abbrev pub live : Db → ℕ → List Expense
live db trip_id = filter (λ e. e.trip_id == trip_id && not e.deleted) db.expenses

-- `_has_payments`
abbrev pub has_payments : Db → ℕ → Bool
has_payments db expense_id = any (λ s. opt_eq s.expense_id (some expense_id)) db.settlements

-- `db.get(Expense, expense_id)`
abbrev pub row : ℕ → List Expense → Option Expense
row expense_id = find (λ e. e.expense_id == expense_id)

-- `_get`: the row, if it is this trip's and live.
unfoldable pub get : Db → ℕ → ℕ → Result Expense
get db trip_id expense_id = elim (row expense_id db.expenses) [
  | none ↦ err no_such_expense
  | some e ↦ if not (e.trip_id == trip_id) || e.deleted then err no_such_expense else ok e
]

-- `{s.user_id: s.amount_cents for s in shares}`
abbrev pub shares_of : List ExpenseShare → List ShareIn → List ExpenseShare
shares_of d [] = d
shares_of d (s ∷ ss) = shares_of (insert s.user_id s.amount_cents d) ss

-- The dict `amounts` of `add_expense` and `edit_expense`.
unfoldable pub amounts_of : ExpenseIn → Result (List ExpenseShare)
amounts_of body =
    if truthy body.shares
    then ok (shares_of [] body.shares)
    else split_evenly body.amount_cents (sort_ids body.participants)

-- The row that `add_expense` builds.
abbrev pub new_cost : ℕ → ExpenseIn → ℕ → ℕ → List ExpenseShare → Expense
new_cost trip_id body fresh now amounts = record {
  expense_id = fresh;
  trip_id = trip_id;
  payer_id = body.payer_id;
  description = strip body.description;
  amount_cents = body.amount_cents;
  currency = body.currency;
  spent_on = body.spent_on;
  block_id = body.block_id;
  category = body.category;
  deleted = false;
  created_at = now;
  shares = amounts;
}

-- `add_expense`
unfoldable pub add_expense : Db → ℕ → ExpenseIn → ℕ → ℕ → Result (Db × Expense)
add_expense db trip_id body fresh now = do
  amounts ← amounts_of body
  check_people db trip_id (body.payer_id ∷ users_of amounts) []
  let expense = new_cost trip_id body fresh now amounts
  ok (record db { expenses = db.expenses ++ expense ∷ [] }, expense)

-- The row `e` written back in place of the one with its key.
abbrev pub store : Expense → List Expense → List Expense
store e [] = []
store e (r ∷ rs) = if r.expense_id == e.expense_id then e ∷ rs else r ∷ store e rs

-- The assignments of `edit_expense`.
abbrev pub restated : Expense → ExpenseIn → List ExpenseShare → Expense
restated expense body amounts = record expense {
  payer_id = body.payer_id;
  description = strip body.description;
  amount_cents = body.amount_cents;
  currency = body.currency;
  spent_on = body.spent_on;
  block_id = body.block_id;
  category = body.category;
  shares = amounts;
}

-- Who paid, or the currency, changes.
abbrev pub changes_terms : Expense → ExpenseIn → Bool
changes_terms expense body =
    not (body.payer_id == expense.payer_id && body.currency == expense.currency)

-- `edit_expense`
unfoldable pub edit_expense : Db → ℕ → ℕ → ExpenseIn → Result (Db × Expense)
edit_expense db trip_id expense_id body = do
  expense ← get db trip_id expense_id
  raise_if (changes_terms expense body && has_payments db expense_id) paid_before_edit
  amounts ← amounts_of body
  check_people db trip_id (body.payer_id ∷ users_of amounts)
      (expense.payer_id ∷ users_of expense.shares)
  let edited = restated expense body amounts
  ok (record db { expenses = store edited db.expenses }, edited)

-- `remove_expense`
unfoldable pub remove_expense : Db → ℕ → ℕ → Result Db
remove_expense db trip_id expense_id = do
  expense ← get db trip_id expense_id
  raise_if (has_payments db expense_id) paid_before_delete
  ok (record db { expenses = store (record expense { deleted = true }) db.expenses })

-- What is left to pay of one person's share is less than the payment.
abbrev pub paid_towards : Db → ℕ → ℕ → ℕ
paid_towards db expense_id user_id =
    sum_by (λ s. s.amount_cents)
      (filter (λ s. opt_eq s.expense_id (some expense_id) && s.from_user_id == user_id)
        db.settlements)

-- `next((s.amount_cents for s in shares if s.user_id == user_id), 0)`
abbrev pub share_of : ℕ → List ExpenseShare → ℕ
share_of user_id [] = 0
share_of user_id (s ∷ ss) = if s.user_id == user_id then s.amount_cents else share_of user_id ss

-- `_check_share`. On integers `amount > share - paid` is `share < amount + paid`.
unfoldable pub check_share : Db → ℕ → ℕ → SettlementIn → Result (Unit {0})
check_share db trip_id expense_id body = do
  expense ← get db trip_id expense_id
  raise_if (not (body.to_user_id == expense.payer_id) || not (body.currency == expense.currency))
      wrong_payee
  raise_if
      (ltb (share_of body.from_user_id expense.shares)
        (body.amount_cents + paid_towards db expense.expense_id body.from_user_id))
      over_share

unfoldable pub check_linked : Db → ℕ → Option ℕ → SettlementIn → Result (Unit {0})
unfolding check_share
check_linked db trip_id none body = ok tt
check_linked db trip_id (some expense_id) body = check_share db trip_id expense_id body

-- The row that `add_settlement` builds.
abbrev pub new_payment : ℕ → SettlementIn → ℕ → Settlement
new_payment trip_id body fresh = record {
  settlement_id = fresh;
  trip_id = trip_id;
  from_user_id = body.from_user_id;
  to_user_id = body.to_user_id;
  expense_id = body.expense_id;
  amount_cents = body.amount_cents;
  currency = body.currency;
  paid_on = body.paid_on;
}

-- `add_settlement`
unfoldable pub add_settlement : Db → ℕ → SettlementIn → ℕ → Result (Db × Settlement)
add_settlement db trip_id body fresh = do
  check_people db trip_id (body.from_user_id ∷ body.to_user_id ∷ []) []
  check_linked db trip_id body.expense_id body
  let payment = new_payment trip_id body fresh
  ok (record db { settlements = db.settlements ++ payment ∷ [] }, payment)

-- `db.delete(row)`
abbrev pub without_payment : ℕ → Db → Db
without_payment settlement_id db = record db {
  settlements = filter (λ r. not (r.settlement_id == settlement_id)) db.settlements;
}

drop_payment : Db → ℕ → ℕ → Option Settlement → Result Db
drop_payment db trip_id settlement_id none = err no_such_payment
drop_payment db trip_id settlement_id (some s) =
    if s.trip_id == trip_id then ok (without_payment settlement_id db) else err no_such_payment

-- `remove_settlement`
unfoldable pub remove_settlement : Db → ℕ → ℕ → Result Db
unfolding drop_payment
remove_settlement db trip_id settlement_id =
    drop_payment db trip_id settlement_id
      (find (λ (s : Settlement). s.settlement_id == settlement_id) db.settlements)

-- A payment that is removed is gone, and nothing else is.
pub remove_settlement-ok :
    (db : Db) (trip_id x : ℕ) {db' : Db}
    → remove_settlement db trip_id x ≡ ok db'
    → db' ≡ without_payment x db
unfolding remove_settlement
remove_settlement-ok db trip_id x {db'} h =
    go (find (λ (s : Settlement). s.settlement_id == x) db.settlements) h
  where
    go : (o : Option Settlement) → drop_payment db trip_id x o ≡ ok db' → db' ≡ without_payment x db
    go none e = cc
    go (some s) e = elim (Bool-cases (s.trip_id == trip_id)) [
      | inl mine ↦ let k : ok (without_payment x db) ≡ ok db' = rw mine at e in cc
      | inr other ↦ let k : err no_such_payment ≡ ok db' = rw other at e in cc
    ]
