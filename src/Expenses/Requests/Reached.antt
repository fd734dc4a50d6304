-- ===== src/Expenses/Requests/Reached.antt =====
-- What holds of every database that the requests reach.
use flight_pricing.Base.{
  ℕ, ◌≡◌, refl, ◌∙◌, subst, true, not, ◌&&◌, List, [], ◌∷◌, All, ◌==◌, if◌then◌else◌, arith,
  All-filter, leb, length, all, ◌^◌,
}
use flight_pricing.Base.Int.{pos}
use flight_pricing.Base.Sums.{sum_by-append, sum_ℤ}
use flight_pricing.Base.Sort.{sum_by-sort_by}
use flight_pricing.Base.Result.{Result, ok, err, raise_if, >>=-eq-ok, invalid_body}
use flight_pricing.Models.{Db}
use flight_pricing.Models.Money.{Expense, ExpenseShare}
use flight_pricing.Expenses.Split.{total}
use flight_pricing.Expenses.Schemas.{
  ExpenseIn, one_split, validate_expense, validate_settlement, tidy, is_money, too_long,
}
use flight_pricing.Expenses.Service.{add_expense, edit_expense, add_settlement, live}
use flight_pricing.Expenses.Include.{include_member, by_date}
use flight_pricing.Expenses.Balances.{balance_of, books}
use flight_pricing.Expenses.Balances.Figures.{spent_in, shared_in}
use flight_pricing.Expenses.Balances.Even.{balance_zero_sum}
use flight_pricing.Expenses.Overview.{ledger, shares_with_currency, with_currency}
use flight_pricing.Expenses.Invariant.{IsSound, Adds}
use flight_pricing.Expenses.Invariant.Costs.{
  add_expense-IsSound, edit_expense-IsSound, remove_expense-IsSound,
}
use flight_pricing.Expenses.Invariant.Payments.{add_settlement-IsSound, remove_settlement-IsSound}
use flight_pricing.Expenses.Invariant.Include.{include_member-IsSound}
use flight_pricing.Expenses.Requests.{
  Request, post_expense, put_expense, delete_expense, post_include, post_settlement,
  delete_settlement, handle, is_fresh, settled, Reach, here, next,
}

-- A validated body passes `_one_split`.
one_split-validated :
    (body : ExpenseIn) {valid : ExpenseIn}
    → validate_expense body ≡ ok valid
    → one_split valid ≡ ok tt
unfolding validate_expense one_split
one_split-validated body {valid} h =
    let (_, _, h₁) =
      >>=-eq-ok
        (raise_if (not (leb 1 (length body.description) && leb (length body.description) 200))
          invalid_body)
        _ h in
    let (_, _, h₂) = >>=-eq-ok (raise_if (not (is_money body.amount_cents)) invalid_body) _ h₁ in
    let (_, _, h₃) = >>=-eq-ok (raise_if (too_long 40 (tidy body.category)) invalid_body) _ h₂ in
    let (_, _, h₄) =
      >>=-eq-ok (raise_if (not (all (λ s. leb s.amount_cents (10 ^ 12)) body.shares)) invalid_body)
        _ h₃ in
    let (_, passed, h₅) = >>=-eq-ok (one_split body) _ h₄ in
    let tidied : ExpenseIn = record body { category = tidy body.category } in
    let same : tidied ≡ valid = cc in subst (λ b. one_split b ≡ ok tt) same passed

pub handle-IsSound :
    (db : Db) (r : Request) {db' : Db}
    → IsSound db
    → is_fresh db r ≡ true
    → handle db r ≡ ok db'
    → IsSound db'
unfolding handle
handle-IsSound db (post_expense t body fresh now) {db'} v f h =
    let (valid, checked, h₀) = >>=-eq-ok (validate_expense body) _ h in
    let (done, ran, h₁) = >>=-eq-ok (add_expense db t valid fresh now) _ h₀ in
    let made : done.0 ≡ db' = cc in
    subst IsSound made (
      add_expense-IsSound db t valid fresh now {r = done} v
        (one_split-validated body {valid = valid} checked) (ground arith) ran)
handle-IsSound db (put_expense t x body) {db'} v f h =
    let (valid, checked, h₀) = >>=-eq-ok (validate_expense body) _ h in
    let (done, ran, h₁) = >>=-eq-ok (edit_expense db t x valid) _ h₀ in
    let made : done.0 ≡ db' = cc in
    subst IsSound made (
      edit_expense-IsSound db t x valid {r = done} v
        (one_split-validated body {valid = valid} checked) ran)
handle-IsSound db (delete_expense t x) {db'} v f h = remove_expense-IsSound db t x {db' = db'} v h
handle-IsSound db (post_include t u chosen) {db'} v f h =
    let (done, ran, h₁) = >>=-eq-ok (include_member db t u chosen) _ h in
    let made : done.0 ≡ db' = cc in
    subst IsSound made (include_member-IsSound db t u chosen {r = done} v ran)
handle-IsSound db (post_settlement t body fresh) {db'} v f h =
    let (valid, checked, h₀) = >>=-eq-ok (validate_settlement body) _ h in
    let (done, ran, h₁) = >>=-eq-ok (add_settlement db t valid fresh) _ h₀ in
    let made : done.0 ≡ db' = cc in
    subst IsSound made (add_settlement-IsSound db t valid fresh {r = done} v ran)
handle-IsSound db (delete_settlement t x) {db'} v f h =
    remove_settlement-IsSound db t x {db' = db'} v h

settled-IsSound :
    (db : Db) (o : Result Db)
    → IsSound db
    → ((db' : Db) → o ≡ ok db' → IsSound db')
    → IsSound (settled db o)
settled-IsSound db (ok db') v k = k db' refl
settled-IsSound db (err e) v k = v

-- From a sound database, whatever the requests and whichever of them fail, new costs being given ids
-- that are not in use, the database is sound: no two costs have one id, every cost's shares add up to
-- it with one share a person, and every payment that names a cost names a live cost of its trip, goes
-- to the cost's payer, and is in its currency.
pub Reach-IsSound : {db db' : Db} → IsSound db → Reach db db' → IsSound db'
Reach-IsSound v here = v
Reach-IsSound v (next {db₁} r before fresh) =
    let w = Reach-IsSound v before in
    settled-IsSound db₁ (handle db₁ r) w (λ db' h. handle-IsSound db₁ r {db' = db'} w fresh h)

spent_in-shares :
    (c : ℕ) (es : List Expense)
    → All Adds es
    → spent_in c es ≡ shared_in c (shares_with_currency es)
spent_in-shares c [] a = refl
spent_in-shares c (e ∷ es) a = grind (
  arith,
  spent_in-shares c es a.1,
  shared_in-with_currency e.shares,
  a.0.0,
  sum_by-append (λ (p : ExpenseShare × ℕ). if p.1 == c then p.0.amount_cents else 0)
      (with_currency e.currency e.shares) (shares_with_currency es),
)
  where
    shared_in-with_currency :
        (ss : List ExpenseShare)
        → shared_in c (with_currency e.currency ss) ≡ (if e.currency == c then total ss else 0)
    shared_in-with_currency [] = ground arith
    shared_in-with_currency (s ∷ ss) = ground (arith, shared_in-with_currency ss)

-- The ledger that is read from a sound database has, in every currency, shares that add up to its costs.
pub ledger_adds :
    (db : Db) (trip_id c : ℕ)
    → IsSound db
    → spent_in c (ledger db trip_id).expenses ≡ shared_in c (ledger db trip_id).shares
unfolding ledger
ledger_adds db trip_id c v =
    sum_by-sort_by by_date (λ e. if e.currency == c then e.amount_cents else 0) (live db trip_id)
    ∙ spent_in-shares c (live db trip_id) (All-filter Adds _ db.expenses v.adds)

-- From a sound database, after any requests, new costs being given ids that are not in use, the net
-- figures that the overview shows for a trip and a currency add up to zero.
pub reached_zero_sum :
    {db db' : Db} (trip_id c : ℕ)
    → IsSound db
    → Reach db db'
    → let l = ledger db' trip_id in
      sum_ℤ (λ m. m.net_cents) (balance_of (books l.expenses l.shares l.settlements) c).members
      ≡ pos 0
reached_zero_sum {db} {db'} trip_id c v reach =
    let l = ledger db' trip_id in
    balance_zero_sum l.expenses l.shares l.settlements c
      (ledger_adds db' trip_id c (Reach-IsSound v reach))
