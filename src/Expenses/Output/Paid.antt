-- ===== src/Expenses/Output/Paid.antt =====
-- The paid amounts that the overview shows are the ones that a new payment is checked against.
use flight_pricing.Base.{
  ℕ, ◌+◌, ◌≡◌, refl, ap, ◌∙◌, true, false, ◌&&◌, Option, none, some, List, [], ◌∷◌, ◌==◌, leb,
  opt_eq, if◌then◌else◌, filter, all, arith, inl, inr, Bool-cases, Option-cases,
}
use flight_pricing.Base.Sums.{sum_by}
use flight_pricing.Base.Sort.{sum_by-sort_by}
use flight_pricing.Models.{Db}
use flight_pricing.Models.Money.{Expense, Settlement}
use flight_pricing.Expenses.Service.{paid_towards, row}
use flight_pricing.Expenses.Overview.{ledger}
use flight_pricing.Expenses.Invariant.{IsSound, is_backed, fits}
use flight_pricing.Expenses.Output.{PaidBy, add_paid, enter_paid, paid_of, paid_from, paid}

-- A person's payments towards a cost.
abbrev pub towards : ℕ → ℕ → List Settlement → ℕ
towards x u ss =
    sum_by (λ s. if opt_eq s.expense_id (some x) && s.from_user_id == u then s.amount_cents else 0)
      ss

paid_of-add_paid :
    (x u y v n : ℕ) (d : PaidBy)
    → paid_of x u (add_paid y v n d) ≡ paid_of x u d + (if x == y && u == v then n else 0)
paid_of-add_paid x u y v n [] = ground arith
paid_of-add_paid x u y v n (((z, w), m) ∷ d) = ground (arith, paid_of-add_paid x u y v n d)

paid_of-enter_paid :
    (x u v n : ℕ) (o : Option ℕ) (d : PaidBy)
    → paid_of x u (enter_paid o v n d)
      ≡ paid_of x u d + (if opt_eq o (some x) && v == u then n else 0)
paid_of-enter_paid x u v n none d = ground arith
paid_of-enter_paid x u v n (some y) d = ground (arith, paid_of-add_paid x u y v n d)

paid_of-paid_from :
    (x u : ℕ) (ss : List Settlement) (d : PaidBy)
    → paid_of x u (paid_from ss d) ≡ towards x u ss + paid_of x u d
paid_of-paid_from x u [] d = ground arith
paid_of-paid_from x u (s ∷ ss) d = omega (
  arith,
  paid_of-paid_from x u ss (enter_paid s.expense_id s.from_user_id s.amount_cents d),
  paid_of-enter_paid x u s.from_user_id s.amount_cents s.expense_id d,
)

-- A payment towards a cost is of the cost's trip.
backed_trip :
    (x : ℕ) (s : Settlement) (es : List Expense) {e : Expense}
    → row x es ≡ some e
    → is_backed es s ≡ true
    → opt_eq s.expense_id (some x) ≡ true
    → s.trip_id ≡ e.trip_id
backed_trip x s es {e} h v named = elim (Option-cases s.expense_id) [
  | inl nothing ↦ let k : false ≡ true = rw nothing at named in cc
  | inr (y, is) ↦
      let k : (y == x) ≡ true = rw is at named in
      let same : y ≡ x = ground arith in
      let linked : s.expense_id ≡ some x = is ∙ ap some same in
      let w : fits s (row x es) ≡ true = rw (linked, is_backed) at v in
      let fit : fits s (some e) ≡ true = rw h at w in ground arith
]

towards-filter :
    (x u t : ℕ) (es : List Expense) {e : Expense} (ss : List Settlement)
    → row x es ≡ some e
    → e.trip_id ≡ t
    → all (is_backed es) ss ≡ true
    → towards x u (filter (λ s. s.trip_id == t) ss)
      ≡ sum_by
          (λ s. s.amount_cents)
          (filter (λ s. opt_eq s.expense_id (some x) && s.from_user_id == u) ss)
towards-filter x u t es [] h k v = refl
towards-filter x u t es {e} (s ∷ ss) h k v = elim (Bool-cases (opt_eq s.expense_id (some x))) [
  | inr other ↦ ground (arith, towards-filter x u t es {e = e} ss)
  | inl named ↦
      let at_trip = backed_trip x s es h (ground arith) named in
      ground (arith, towards-filter x u t es {e = e} ss)
]

-- In a sound database, what the overview shows as paid of a person's share of one of the trip's costs
-- is the amount that a further payment towards that share is checked against.
pub shown_paid :
    (db : Db) (trip_id x u : ℕ) {e : Expense}
    → IsSound db
    → row x db.expenses ≡ some e
    → e.trip_id ≡ trip_id
    → paid_of x u (paid (ledger db trip_id).settlements) ≡ paid_towards db x u
unfolding paid ledger
shown_paid db trip_id x u {e} v h k =
    let own = filter (λ (s : Settlement). s.trip_id == trip_id) db.settlements in
    let counted =
      sum_by-sort_by (λ (a : Settlement) b. leb a.paid_on b.paid_on)
        (λ s. if opt_eq s.expense_id (some x) && s.from_user_id == u then s.amount_cents else 0) own
      ∙ towards-filter x u trip_id db.expenses {e = e} db.settlements h k v.backed in
    paid_of-paid_from x u (ledger db trip_id).settlements [] ∙ omega (arith, counted)
