-- ===== src/Expenses/Invariant/Payments.antt =====
-- Recording and removing payments keeps the database sound, and no payment exceeds a share.
use flight_pricing.Base.{
  ℕ, ◌+◌, ◌≤◌, ◌≡◌, refl, ap, ◌∙◌, subst, Bool, true, false, not, ◌&&◌, ◌||◌, some, List, [], ◌∷◌,
  ◌++◌, ◌==◌, opt_eq, all, filter, arith, inl, inr, Option-cases,
}
use flight_pricing.Base.Sums.{sum_by, sum_by-append}
use flight_pricing.Base.Result.{ok, raise_if, raise_if-ok, >>=-eq-ok, wrong_payee, over_share}
use flight_pricing.Models.{Db}
use flight_pricing.Models.Money.{Expense, Settlement}
use flight_pricing.Expenses.Schemas.{SettlementIn}
use flight_pricing.Expenses.Service.{
  row, get, check_people, check_share, check_linked, share_of, paid_towards, new_payment,
  add_settlement, remove_settlement, remove_settlement-ok,
}
use flight_pricing.Expenses.Invariant.{IsSound, is_backed}
use flight_pricing.Expenses.Invariant.Tables.{row-key}
use flight_pricing.Expenses.Invariant.Costs.{get-ok}

-- What `_check_share` grants: the cost is live and this trip's, the payment goes to its payer in its
-- currency, and is no more than is left of the share.
pub check_share-ok :
    (db : Db) (trip_id x : ℕ) (body : SettlementIn)
    → check_share db trip_id x body ≡ ok tt
    → (e : Expense) × (row x db.expenses ≡ some e)
      × (e.deleted ≡ false)
      × (e.trip_id ≡ trip_id)
      × (body.to_user_id ≡ e.payer_id)
      × (body.currency ≡ e.currency)
      × (body.amount_cents + paid_towards db x body.from_user_id
          ≤ share_of body.from_user_id e.shares)
unfolding check_share
check_share-ok db trip_id x body h =
    let (e, got, h₀) = >>=-eq-ok (get db trip_id x) _ h in
    let (found, trip, alive) = get-ok db trip_id x {e = e} got in
    let key : e.expense_id ≡ x = row-key x db.expenses {r = e} found in
    let wrong = not (body.to_user_id == e.payer_id) || not (body.currency == e.currency) in
    let (_, right, h₁) = >>=-eq-ok (raise_if wrong wrong_payee) _ h₀ in
    let r = raise_if-ok wrong wrong_payee right in
    let within = raise_if-ok _ over_share h₁ in
    let bound : body.amount_cents + paid_towards db e.expense_id body.from_user_id
        ≤ share_of body.from_user_id e.shares =
      ground arith in
    (
      e,
      found,
      alive,
      trip,
      ground arith,
      ground arith,
      subst
          (λ k.
            body.amount_cents + paid_towards db k body.from_user_id
            ≤ share_of body.from_user_id e.shares)
          key bound,
    )

all-append :
    (p : Settlement → Bool) (ss : List Settlement) (s : Settlement)
    → all p ss ≡ true
    → p s ≡ true
    → all p (ss ++ s ∷ []) ≡ true
all-append p [] s h k = ground arith
all-append p (t ∷ ss) s h k = ground (arith, all-append p ss s)

all-filter :
    (p q : Settlement → Bool) (ss : List Settlement) → all p ss ≡ true → all p (filter q ss) ≡ true
all-filter p q [] h = refl
all-filter p q (s ∷ ss) h = ground (arith, all-filter p q ss)

-- A payment that passes the check is backed.
check_linked-is_backed :
    (db : Db) (trip_id : ℕ) (body : SettlementIn) (fresh : ℕ)
    → check_linked db trip_id body.expense_id body ≡ ok tt
    → is_backed db.expenses (new_payment trip_id body fresh) ≡ true
unfolding check_linked
check_linked-is_backed db trip_id body fresh h = elim (Option-cases body.expense_id) [
  | inl unnamed ↦ rw unnamed
  | inr (x, named) ↦
      let (e, found, alive, trip, payee, money, _) =
        check_share-ok db trip_id x body (rw named at h) in
      rw (named, found) (ground arith)
]

pub add_settlement-IsSound :
    (db : Db) (trip_id : ℕ) (body : SettlementIn) (fresh : ℕ) {r : Db × Settlement}
    → IsSound db
    → add_settlement db trip_id body fresh ≡ ok r
    → IsSound r.0
unfolding add_settlement
add_settlement-IsSound db trip_id body fresh {r} v h =
    let (_, _, h₀) =
      >>=-eq-ok (check_people db trip_id (body.from_user_id ∷ body.to_user_id ∷ []) []) _ h in
    let (_, checked, h₁) = >>=-eq-ok (check_linked db trip_id body.expense_id body) _ h₀ in
    let s = new_payment trip_id body fresh in
    let made : record db { settlements = db.settlements ++ s ∷ [] } ≡ r.0 = cc in
    subst IsSound made (record {
      keyed = v.keyed;
      adds = v.adds;
      backed =
          all-append (is_backed db.expenses) db.settlements s v.backed
            (check_linked-is_backed db trip_id body fresh checked);
    })

pub remove_settlement-IsSound :
    (db : Db) (trip_id x : ℕ) {db' : Db}
    → IsSound db
    → remove_settlement db trip_id x ≡ ok db'
    → IsSound db'
unfolding remove_settlement
remove_settlement-IsSound db trip_id x {db'} v h =
    rw (remove_settlement-ok db trip_id x {db' = db'} h) (record {
      keyed = v.keyed;
      adds = v.adds;
      backed = all-filter (is_backed db.expenses) _ db.settlements v.backed;
    })

filter-append :
    (p : Settlement → Bool) (ss : List Settlement) (s : Settlement)
    → p s ≡ true
    → filter p (ss ++ s ∷ []) ≡ filter p ss ++ s ∷ []
filter-append p [] s h = rw h
filter-append p (t ∷ ss) s h = ground (arith, filter-append p ss s h)

-- After a payment towards a cost is recorded, all that its sender has paid towards that cost, this
-- payment included, is at most their share of it.
pub add_settlement-within_share :
    (db : Db) (trip_id : ℕ) (body : SettlementIn) (fresh x : ℕ) {r : Db × Settlement}
    → body.expense_id ≡ some x
    → add_settlement db trip_id body fresh ≡ ok r
    → (e : Expense) × (row x r.0.expenses ≡ some e)
      × (paid_towards r.0 x body.from_user_id ≤ share_of body.from_user_id e.shares)
unfolding add_settlement check_linked
add_settlement-within_share db trip_id body fresh x {r} named h =
    let (_, _, h₀) =
      >>=-eq-ok (check_people db trip_id (body.from_user_id ∷ body.to_user_id ∷ []) []) _ h in
    let (_, checked, h₁) = >>=-eq-ok (check_linked db trip_id body.expense_id body) _ h₀ in
    let s = new_payment trip_id body fresh in
    let made : record db { settlements = db.settlements ++ s ∷ [] } ≡ r.0 = cc in
    let (e, found, _, _, _, _, within) = check_share-ok db trip_id x body (rw named at checked) in
    let counted =
      λ (t : Settlement). opt_eq t.expense_id (some x) && t.from_user_id == body.from_user_id in
    let grown =
      ap (sum_by (λ t. t.amount_cents))
        (filter-append counted db.settlements s (rw named (ground arith)))
      ∙ sum_by-append (λ t. t.amount_cents) (filter counted db.settlements) (s ∷ []) in
    (e, rw (← made) found, rw (← made) (omega (arith, grown)))
