-- ===== src/Sharing/Tests.antt =====
-- Runs of the sharing code on a trip of three, and its theorems at that trip.
use flight_pricing.Base.{ℕ, ◌≡◌, refl, true, false, none, [], ◌∷◌, ◌⊎◌}
use flight_pricing.Base.Int.{pos, ◌+ℤ◌, ◌-ℤ◌}
use flight_pricing.Base.Result.{err, still_owes, owner_stays, owner_role}
use flight_pricing.Models.{Db}
use flight_pricing.Models.People.{User, UserTrip, TripRole, owner, editor, viewer, is_owner}
use flight_pricing.Models.Money.{Expense}
use flight_pricing.Expenses.Balances.{balances, books, net_of}
use flight_pricing.Expenses.Overview.{ledger, has_balance}
use flight_pricing.Expenses.Debts.{has_balance_complete}
use flight_pricing.Sharing.Members.{
  as_viewer, member_out, set_role, share_with, add_member, without_row, unshare, remove_member,
}
use flight_pricing.Sharing.Roles.{owners, owners-add_member, remove_member_settled}

abbrev person : ℕ → User
person u = record { user_id = u; google_sub = u; email = u ∷ []; name = none; picture = none }

abbrev seat : ℕ → TripRole → UserTrip
seat u role = record { user_id = u; trip_id = 9; role = role; created_at = u }

abbrev lunch : Expense
lunch = record {
  expense_id = 70;
  trip_id = 9;
  payer_id = 1;
  description = 100 ∷ [];
  amount_cents = 40;
  currency = 5;
  spent_on = 3;
  block_id = none;
  category = none;
  deleted = false;
  created_at = 0;
  shares =
      record { user_id = 1; amount_cents = 20 } ∷ record { user_id = 2; amount_cents = 20 } ∷ [];
}

abbrev db : Db
db = record {
  users = person 1 ∷ person 2 ∷ person 3 ∷ person 4 ∷ [];
  cities = [];
  trips = [];
  user_trips = seat 1 owner ∷ seat 2 editor ∷ seat 3 viewer ∷ [];
  expenses = lunch ∷ [];
  settlements = [];
  places = [];
  items = [];
  trip_days = [];
  trip_places = [];
  trip_dismissals = [];
  trip_cities = [];
  place_queries = [];
}

debtor_stays : remove_member db 9 2 2 editor ≡ err still_owes
unfolding remove_member unshare has_balance balances ◌+ℤ◌ ◌-ℤ◌
debtor_stays = refl

owner_never_leaves : remove_member db 9 1 1 owner ≡ err owner_stays
unfolding remove_member unshare
owner_never_leaves = refl

owner_keeps_role : add_member db 9 (record { user_id = 1; role = as_viewer }) 8 ≡ err owner_role
unfolding add_member share_with
owner_keeps_role = refl

abbrev demoted : Db
demoted = record db { user_trips = set_role 2 9 viewer db.user_trips }

owners-add_member_example : owners 9 demoted.user_trips ≡ 1
unfolding add_member share_with
owners-add_member_example =
    owners-add_member db 9 (record { user_id = 2; role = as_viewer }) 8 9
      {r = (demoted, member_out (person 2) viewer)} refl

abbrev smaller : Db
smaller = record db { user_trips = without_row 3 9 db.user_trips }

remove_member_settled_example :
    ((◌≡◌ {A = ℕ} 3 1) ⊎ (is_owner owner ≡ true))
    × (owners 9 smaller.user_trips ≡ owners 9 db.user_trips)
    × (let l = ledger db 9 in net_of 3 5 (books l.expenses l.shares l.settlements) ≡ pos 0)
unfolding remove_member unshare has_balance balances
remove_member_settled_example = remove_member_settled db 9 3 1 owner 9 5 {db' = smaller} refl

has_balance_complete_example :
    let l = ledger db 9 in net_of 3 5 (books l.expenses l.shares l.settlements) ≡ pos 0
unfolding has_balance balances
has_balance_complete_example = has_balance_complete db 9 3 5 refl
