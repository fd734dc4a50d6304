-- ===== src/Expenses/Invariant/Costs.antt =====
-- Adding, editing, removing and re-splitting costs keeps the database sound.
use flight_pricing.Base.{
  ℕ, ◌≡◌, ap, ◌∙◌, subst, true, false, ◌&&◌, some, List, [], ◌∷◌, ◌++◌, All-append, distinct,
  member, arith, ◌⊎◌, inl, inr, Option-cases,
}
use flight_pricing.Base.Result.{
  ok, raise_if, raise_if-ok, >>=-eq-ok, paid_before_edit, paid_before_delete,
}
use flight_pricing.Models.{Db}
use flight_pricing.Models.Money.{Expense, ExpenseShare}
use flight_pricing.Expenses.Split.{total, users_of}
use flight_pricing.Expenses.Schemas.{ExpenseIn, one_split}
use flight_pricing.Expenses.Service.{
  row, store, get, has_payments, amounts_of, check_people, add_expense, edit_expense,
  remove_expense, new_cost, restated, changes_terms,
}
use flight_pricing.Expenses.Invariant.{IsSound, Adds, ids}
use flight_pricing.Expenses.Invariant.Tables.{
  row-key, row-Adds, ids-store, ids-append, Adds-store, backed-store, backed-append, same_terms,
}
use flight_pricing.Expenses.Invariant.Amounts.{amounts_of-total}

-- What `_get` grants.
pub get-ok :
    (db : Db) (trip_id x : ℕ) {e : Expense}
    → get db trip_id x ≡ ok e
    → (row x db.expenses ≡ some e) × (e.trip_id ≡ trip_id) × (e.deleted ≡ false)
unfolding get
get-ok db trip_id x {e} h = elim (Option-cases (row x db.expenses)) [
  | inl missing ↦ ground arith
  | inr (r, found) ↦ ground arith
]

amounts-Adds :
    (body : ExpenseIn) {amounts : List ExpenseShare}
    → one_split body ≡ ok tt
    → amounts_of body ≡ ok amounts
    → (total amounts ≡ body.amount_cents) × (distinct (users_of amounts) ≡ true)
amounts-Adds body {amounts} valid h =
    let (found, run, sums, single) = amounts_of-total body valid in
    let same : found ≡ amounts = cc in
    subst (λ t. (total t ≡ body.amount_cents) × (distinct (users_of t) ≡ true)) same (sums, single)

pub add_expense-IsSound :
    (db : Db) (trip_id : ℕ) (body : ExpenseIn) (fresh now : ℕ) {r : Db × Expense}
    → IsSound db
    → one_split body ≡ ok tt
    → member fresh (ids db.expenses) ≡ false
    → add_expense db trip_id body fresh now ≡ ok r
    → IsSound r.0
unfolding add_expense
add_expense-IsSound db trip_id body fresh now {r} v valid new h =
    let (amounts, ran, h₁) = >>=-eq-ok (amounts_of body) _ h in
    let (_, _, h₂) =
      >>=-eq-ok (check_people db trip_id (body.payer_id ∷ users_of amounts) []) _ h₁ in
    let e = new_cost trip_id body fresh now amounts in
    let made : record db { expenses = db.expenses ++ e ∷ [] } ≡ r.0 = cc in
    subst IsSound made (record {
      keyed = ids-append db.expenses e new v.keyed;
      adds =
          All-append Adds db.expenses (e ∷ []) v.adds
            (amounts-Adds body {amounts = amounts} valid ran, tt);
      backed = backed-append e db.expenses db.settlements v.backed;
    })

-- Writing a row back keeps the database sound if the row adds up, and keeps its terms or is not paid.
pub stored-IsSound :
    (db : Db) (e : Expense) {r : Expense}
    → IsSound db
    → row e.expense_id db.expenses ≡ some r
    → Adds e
    → (same_terms r e ≡ true) ⊎ (has_payments db e.expense_id ≡ false)
    → IsSound (record db { expenses = store e db.expenses })
stored-IsSound db e {r} v found a kept = record {
  keyed = ap distinct (ids-store e db.expenses) ∙ v.keyed;
  adds = Adds-store e db.expenses a v.adds;
  backed = backed-store e db.expenses db.settlements {r = r} found kept v.backed;
}

pub edit_expense-IsSound :
    (db : Db) (trip_id x : ℕ) (body : ExpenseIn) {r : Db × Expense}
    → IsSound db
    → one_split body ≡ ok tt
    → edit_expense db trip_id x body ≡ ok r
    → IsSound r.0
unfolding edit_expense
edit_expense-IsSound db trip_id x body {r} v valid h =
    let (e, got, h₀) = >>=-eq-ok (get db trip_id x) _ h in
    let (_, free, h₁) =
      >>=-eq-ok (raise_if (changes_terms e body && has_payments db x) paid_before_edit) _ h₀ in
    let (amounts, ran, h₂) = >>=-eq-ok (amounts_of body) _ h₁ in
    let (_, _, h₃) =
      >>=-eq-ok
        (check_people db trip_id (body.payer_id ∷ users_of amounts)
          (e.payer_id ∷ users_of e.shares))
        _ h₂ in
    let (found, trip, alive) = get-ok db trip_id x {e = e} got in
    let e' = restated e body amounts in
    let key : e.expense_id ≡ x = row-key x db.expenses {r = e} found in
    let made : record db { expenses = store e' db.expenses } ≡ r.0 = cc in
    subst IsSound made (
      stored-IsSound db e' {r = e} v (rw key found)
        (amounts-Adds body {amounts = amounts} valid ran) (rw key (ground arith)))

pub remove_expense-IsSound :
    (db : Db) (trip_id x : ℕ) {db' : Db}
    → IsSound db
    → remove_expense db trip_id x ≡ ok db'
    → IsSound db'
unfolding remove_expense
remove_expense-IsSound db trip_id x {db'} v h =
    let (e, got, h₀) = >>=-eq-ok (get db trip_id x) _ h in
    let (_, free, h₁) = >>=-eq-ok (raise_if (has_payments db x) paid_before_delete) _ h₀ in
    let (found, trip, alive) = get-ok db trip_id x {e = e} got in
    let e' : Expense = record e { deleted = true } in
    let key : e.expense_id ≡ x = row-key x db.expenses {r = e} found in
    let made : record db { expenses = store e' db.expenses } ≡ db' = cc in
    subst IsSound made (
      stored-IsSound db e' {r = e} v (rw key found) (row-Adds x db.expenses {r = e} v.adds found)
        (rw key (inr (raise_if-ok (has_payments db x) paid_before_delete free))))
