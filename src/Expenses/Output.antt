-- ===== src/Expenses/Output.antt =====
-- tp_backend/tp_api/expenses: what `overview` answers of costs and payments, `_paid`, `_blocks` and
-- `_out` of service.py. The default currency is left out.
pub mod Paid
use flight_pricing.Base.{
  ℕ, ◌+◌, ◌≡◌, Bool, true, false, ◌&&◌, Option, none, some, List, [], ◌∷◌, map, leb, ◌==◌, opt_eq,
  if◌then◌else◌, find, filter,
}
use flight_pricing.Base.Sort.{sort_by}
use flight_pricing.Base.Text.{Text}
use flight_pricing.Base.Result.{Result, ok, err, no_such_trip}
use flight_pricing.Models.{Db}
use flight_pricing.Models.People.{Trip}
use flight_pricing.Models.Money.{Expense, ExpenseShare, Settlement}
use flight_pricing.Models.Itinerary.{Place, ItineraryItem}
use flight_pricing.Expenses.Balances.{CurrencyBalance, balances}
use flight_pricing.Expenses.Overview.{ledger}

pub record ShareOut : Type 0 where
  pub user_id : ℕ
  pub amount_cents : ℕ
  pub paid_cents : ℕ

pub record ExpenseOut : Type 0 where
  pub expense_id : ℕ
  pub description : Text
  pub amount_cents : ℕ
  pub currency : ℕ
  pub spent_on : ℕ
  pub payer_id : ℕ
  pub block_id : Option ℕ
  pub category : Option Text
  pub block_title : Option Text
  pub day_index : Option ℕ
  pub shares : List ShareOut

pub record SettlementOut : Type 0 where
  pub settlement_id : ℕ
  pub from_user_id : ℕ
  pub to_user_id : ℕ
  pub expense_id : Option ℕ
  pub amount_cents : ℕ
  pub currency : ℕ
  pub paid_on : ℕ

-- `ExpensesOut`, without the default currency and the members.
pub record ExpensesOut : Type 0 where
  pub expenses : List ExpenseOut
  pub settlements : List SettlementOut
  pub balances : List CurrencyBalance

-- The dict of `_paid`, keyed by a cost and a sender.
abbrev pub PaidBy : Type 0
PaidBy = List ((ℕ × ℕ) × ℕ)

-- `out[(x, u)] += n`
abbrev pub add_paid : ℕ → ℕ → ℕ → PaidBy → PaidBy
add_paid x u n [] = ((x, u), n) ∷ []
add_paid x u n (((y, v), m) ∷ d) =
    if x == y && u == v then ((y, v), m + n) ∷ d else ((y, v), m) ∷ add_paid x u n d

-- `paid.get((x, u), 0)`
abbrev pub paid_of : ℕ → ℕ → PaidBy → ℕ
paid_of x u [] = 0
paid_of x u (((y, v), m) ∷ d) = if x == y && u == v then m else paid_of x u d

-- One round of the loop of `_paid`, on a payment's cost, sender and amount; and the loop.
abbrev pub enter_paid : Option ℕ → ℕ → ℕ → PaidBy → PaidBy
enter_paid none u n d = d
enter_paid (some x) u n d = add_paid x u n d

abbrev pub paid_from : List Settlement → PaidBy → PaidBy
paid_from [] d = d
paid_from (s ∷ ss) d = paid_from ss (enter_paid s.expense_id s.from_user_id s.amount_cents d)

unfoldable pub paid : List Settlement → PaidBy
paid ss = paid_from ss []

-- A block's title: its own, or its place's name.
abbrev pub title_of : Db → ItineraryItem → Option Text
title_of db item = elim item.title [
  | some t ↦ some t
  | none ↦ elim item.place_id [
    | none ↦ none
    | some p ↦ elim (find (λ (q : Place). q.place_id == p) db.places) [
      | none ↦ none
      | some q ↦ some q.name
    ]
  ]
]

-- `_blocks(db, trip_id).get(block_id or "")`; a trip has a block id once.
unfoldable pub block_of : Db → ℕ → Option ℕ → Option (Option Text × ℕ)
block_of db trip_id none = none
block_of db trip_id (some b) =
    elim (find (λ (i : ItineraryItem). i.trip_id == trip_id && i.block_id == b) db.items) [
      | none ↦ none
      | some item ↦ some (title_of db item, item.day_index)
    ]

abbrev pub title_in : Option (Option Text × ℕ) → Option Text
title_in none = none
title_in (some b) = b.0

abbrev pub day_in : Option (Option Text × ℕ) → Option ℕ
day_in none = none
day_in (some b) = some b.1

abbrev pub share_out : ℕ → PaidBy → ExpenseShare → ShareOut
share_out x d s = record {
  user_id = s.user_id;
  amount_cents = s.amount_cents;
  paid_cents = paid_of x s.user_id d;
}

-- `_out`, on the block that the cost names.
unfoldable pub out : Expense → Option (Option Text × ℕ) → PaidBy → ExpenseOut
out e block d = record {
  expense_id = e.expense_id;
  description = e.description;
  amount_cents = e.amount_cents;
  currency = e.currency;
  spent_on = e.spent_on;
  payer_id = e.payer_id;
  block_id = e.block_id;
  category = e.category;
  block_title = title_in block;
  day_index = day_in block;
  shares = map (share_out e.expense_id d) (sort_by (λ a b. leb a.user_id b.user_id) e.shares);
}

abbrev pub settlement_out : Settlement → SettlementOut
settlement_out s = record {
  settlement_id = s.settlement_id;
  from_user_id = s.from_user_id;
  to_user_id = s.to_user_id;
  expense_id = s.expense_id;
  amount_cents = s.amount_cents;
  currency = s.currency;
  paid_on = s.paid_on;
}

-- `overview`
unfoldable pub overview : Db → ℕ → Result ExpensesOut
unfolding out block_of paid
overview db trip_id = elim (find (λ (t : Trip). t.trip_id == trip_id) db.trips) [
  | none ↦ err no_such_trip
  | some t ↦
      let l = ledger db trip_id in
      ok (record {
        expenses =
            map (λ e. out e (block_of db trip_id e.block_id) (paid l.settlements)) l.expenses;
        settlements = map settlement_out l.settlements;
        balances = balances l.expenses l.shares l.settlements;
      })
]
