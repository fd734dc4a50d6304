-- ===== src/Expenses/Tests.antt =====
-- Runs of the expenses code on a small trip, and its theorems at that trip.
use flight_pricing.Base.{
  ℕ, ◌≤◌, ◌≡◌, refl, true, false, none, some, List, [], ◌∷◌, ◌++◌, map, All, length, distinct,
}
use flight_pricing.Base.Int.{pos, negsuc, ◌+ℤ◌, ◌-ℤ◌}
use flight_pricing.Base.Sums.{sum_ℤ}
use flight_pricing.Base.Result.{ok, err, over_share, paid_before_delete}
use flight_pricing.Models.{Db}
use flight_pricing.Models.People.{UserTrip, editor}
use flight_pricing.Models.Money.{Expense, ExpenseShare, Settlement}
use flight_pricing.Expenses.Split.{split_evenly, split_evenly_exact, total, users_of, IsEven}
use flight_pricing.Expenses.Transfers.{Net, transfers}
use flight_pricing.Expenses.Transfers.Settle.{
  figure, sent, received, transfers_settle, length-transfers,
}
use flight_pricing.Expenses.Schemas.{ExpenseIn, SettlementIn, one_split, validate_settlement}
use flight_pricing.Expenses.Service.{
  row, amounts_of, add_settlement, new_payment, paid_towards, share_of, check_people, check_linked,
  get, remove_expense,
}
use flight_pricing.Expenses.Balances.{books, balance_of, net_of}
use flight_pricing.Expenses.Balances.Even.{settle_up, as_settlement}
use flight_pricing.Expenses.Overview.{ledger, shares_with_currency}
use flight_pricing.Expenses.Output.{paid, paid_of}
use flight_pricing.Expenses.Output.Paid.{shown_paid}
use flight_pricing.Expenses.Invariant.{IsSound}
use flight_pricing.Expenses.Invariant.Amounts.{amounts_of-total}
use flight_pricing.Expenses.Invariant.Payments.{add_settlement-within_share}
use flight_pricing.Expenses.Requests.{
  Request, post_expense, delete_expense, post_settlement, handle, settled, Reach, here, next,
}
use flight_pricing.Expenses.Requests.Reached.{Reach-IsSound, reached_zero_sum}

abbrev share : ℕ → ℕ → ExpenseShare
share u a = record { user_id = u; amount_cents = a }

abbrev dinner : Expense
dinner = record {
  expense_id = 70;
  trip_id = 9;
  payer_id = 1;
  description = 100 ∷ [];
  amount_cents = 100;
  currency = 5;
  spent_on = 3;
  block_id = none;
  category = none;
  deleted = false;
  created_at = 0;
  shares = share 1 34 ∷ share 2 33 ∷ share 3 33 ∷ [];
}

abbrev member_row : ℕ → UserTrip
member_row u = record { user_id = u; trip_id = 9; role = editor; created_at = u }

abbrev db : Db
db = record {
  users = [];
  cities = [];
  trips = [];
  user_trips = member_row 1 ∷ member_row 2 ∷ member_row 3 ∷ [];
  expenses = dinner ∷ [];
  settlements = [];
  places = [];
  items = [];
  trip_days = [];
  trip_places = [];
  trip_dismissals = [];
  trip_cities = [];
  place_queries = [];
}

abbrev taxi : ExpenseIn
taxi = record {
  description = 32 ∷ 116 ∷ [];
  amount_cents = 50;
  currency = 5;
  spent_on = 4;
  payer_id = 2;
  block_id = none;
  category = none;
  participants = 3 ∷ 2 ∷ [];
  shares = [];
}

abbrev repay : SettlementIn
repay = record {
  from_user_id = 2;
  to_user_id = 1;
  expense_id = some 70;
  amount_cents = 20;
  currency = 5;
  paid_on = 6;
}

abbrev too_much : SettlementIn
too_much = record repay { amount_cents = 34 }

repay_refused : handle db (post_settlement 9 too_much 80) ≡ err over_share
unfolding handle validate_settlement add_settlement check_people check_linked get
repay_refused = refl

paid_cost_stays :
    handle (settled db (handle db (post_settlement 9 repay 80))) (delete_expense 9 70)
    ≡ err paid_before_delete
unfolding handle validate_settlement add_settlement check_people check_linked get remove_expense
paid_cost_stays = refl

db-IsSound : IsSound db
db-IsSound = record { keyed = refl; adds = ((refl, refl), tt); backed = refl }

abbrev first : Request
first = post_expense 9 taxi 71 5

abbrev second : Request
second = post_settlement 9 repay 80

abbrev after : Db
after = let db₁ = settled db (handle db first) in settled db₁ (handle db₁ second)

history : Reach db after
history = next second (next first here refl) refl

Reach-IsSound_example : IsSound after
Reach-IsSound_example = Reach-IsSound db-IsSound history

reached_zero_sum_example :
    let l = ledger after 9 in
    sum_ℤ (λ m. m.net_cents) (balance_of (books l.expenses l.shares l.settlements) 5).members
    ≡ pos 0
reached_zero_sum_example = reached_zero_sum 9 5 db-IsSound history

abbrev owed_to_two : Net
owed_to_two = (1, pos 66) ∷ (2, negsuc 32) ∷ (3, negsuc 32) ∷ []

transfers_settle_example :
    figure 2 owed_to_two
      +ℤ pos (sent 2 (transfers owed_to_two))
      -ℤ pos (received 2 (transfers owed_to_two))
    ≡ pos 0
unfolding ◌+ℤ◌
transfers_settle_example = transfers_settle owed_to_two 2 refl refl

length-transfers_example : length (transfers owed_to_two) ≤ 2
length-transfers_example = length-transfers owed_to_two

split_evenly_exact_example :
    (shares : List ExpenseShare) × (split_evenly 100 (1 ∷ 2 ∷ 3 ∷ []) ≡ ok shares)
    × (total shares ≡ 100)
    × (users_of shares ≡ 1 ∷ 2 ∷ 3 ∷ [])
    × All (IsEven 100 3) shares
split_evenly_exact_example = split_evenly_exact 100 (1 ∷ 2 ∷ 3 ∷ []) refl (λ e. cc)

amounts_of-total_example :
    (amounts : List ExpenseShare) × (amounts_of taxi ≡ ok amounts)
    × (total amounts ≡ 50)
    × (distinct (users_of amounts) ≡ true)
unfolding one_split
amounts_of-total_example = amounts_of-total taxi refl

add_settlement-within_share_example :
    (e : Expense) × (row 70 (dinner ∷ []) ≡ some e)
    × (paid_towards (record db { settlements = new_payment 9 repay 80 ∷ [] }) 70 2
        ≤ share_of 2 e.shares)
unfolding add_settlement check_people check_linked get
add_settlement-within_share_example =
    add_settlement-within_share db 9 repay 80 70
      {r = (record db { settlements = new_payment 9 repay 80 ∷ [] }, new_payment 9 repay 80)} refl
      refl

abbrev paid_back : Settlement
paid_back = new_payment 9 repay 80

settle_up_example :
    let es = dinner ∷ [] in
    let ss = shares_with_currency es in
    let trs = (balance_of (books es ss (paid_back ∷ [])) 5).transfers in
    net_of 3 5 (books es ss (paid_back ∷ [] ++ map (as_settlement 5) trs)) ≡ pos 0
settle_up_example =
    settle_up (dinner ∷ []) (shares_with_currency (dinner ∷ [])) (paid_back ∷ []) 5 3 refl

abbrev repaid : Db
repaid = record db { settlements = paid_back ∷ [] }

repaid-IsSound : IsSound repaid
repaid-IsSound = record { keyed = refl; adds = ((refl, refl), tt); backed = refl }

shown_paid_example : paid_of 70 2 (paid (ledger repaid 9).settlements) ≡ 20
shown_paid_example = shown_paid repaid 9 70 2 {e = dinner} repaid-IsSound refl refl
