-- ===== src/Expenses/Balances.antt =====
-- tp_backend/tp_api/expenses/service.py, `_balances`: paid, owed and settled folded into one net
-- figure for each person and currency. Sums are Python ints; the amounts of rows are naturals.
pub mod Figures
pub mod Even
use mathlib.Core.List.{foldl}
use flight_pricing.Base.{ℕ, ◌≡◌, refl, Bool, List, [], ◌∷◌, ◌++◌, map, ◌==◌, if◌then◌else◌, dedup}
use flight_pricing.Base.Int.{ℤ, pos, negsuc, ◌+ℤ◌, ◌-ℤ◌}
use flight_pricing.Base.Sort.{sort_ids}
use flight_pricing.Models.Money.{Expense, ExpenseShare, Settlement}
use flight_pricing.Expenses.Tally.{Tally, get, add_at, users_in}
use flight_pricing.Expenses.Transfers.{Transfer, transfers}

-- `totals`, keyed by currency.
abbrev pub Totals : Type 0
Totals = List (ℕ × ℤ)

-- `totals[c] += v`
abbrev pub add_total : ℕ → ℤ → Totals → Totals
add_total c v [] = (c, v) ∷ []
add_total c v ((c', w) ∷ d) = if c' == c then (c', w +ℤ v) ∷ d else (c', w) ∷ add_total c v d

-- `totals.setdefault(c, 0)`
abbrev pub set_default : ℕ → Totals → Totals
set_default c [] = (c, pos 0) ∷ []
set_default c ((c', w) ∷ d) = if c' == c then (c', w) ∷ d else (c', w) ∷ set_default c d

-- `totals[c]`
abbrev pub total_of : ℕ → Totals → ℤ
total_of c [] = pos 0
total_of c ((c', w) ∷ d) = if c' == c then w else total_of c d

-- The four dicts that the loops fill.
pub record Books : Type 0 where
  pub paid : Tally
  pub owed : Tally
  pub moved : Tally
  pub totals : Totals

abbrev pub no_books : Books
no_books = record { paid = []; owed = []; moved = []; totals = [] }

unfoldable pub enter_expense : Books → Expense → Books
enter_expense b e = record b {
  paid = add_at e.payer_id e.currency (pos e.amount_cents) b.paid;
  totals = add_total e.currency (pos e.amount_cents) b.totals;
}

unfoldable pub enter_share : Books → ExpenseShare × ℕ → Books
enter_share b (share, currency) = record b {
  owed = add_at share.user_id currency (pos share.amount_cents) b.owed;
  totals = set_default currency b.totals;
}

unfoldable pub enter_settlement : Books → Settlement → Books
enter_settlement b s = record b {
  moved =
      add_at s.to_user_id s.currency (pos 0 -ℤ pos s.amount_cents)
        (add_at s.from_user_id s.currency (pos s.amount_cents) b.moved);
  totals = set_default s.currency b.totals;
}

unfoldable pub books : List Expense → List (ExpenseShare × ℕ) → List Settlement → Books
unfolding enter_expense enter_share enter_settlement
books expenses shares settlements =
    foldl enter_settlement (foldl enter_share (foldl enter_expense no_books expenses) shares)
      settlements

pub record MemberBalance : Type 0 where
  pub user_id : ℕ
  pub paid_cents : ℤ
  pub share_cents : ℤ
  pub settled_cents : ℤ
  pub net_cents : ℤ

pub record CurrencyBalance : Type 0 where
  pub currency : ℕ
  pub total_cents : ℤ
  pub members : List MemberBalance
  pub transfers : List Transfer

-- `sorted({u for u, c in (*paid, *owed, *moved) if c == currency})`
abbrev pub people_in : ℕ → Books → List ℕ
people_in c b = sort_ids (dedup (users_in c b.paid ++ users_in c b.owed ++ users_in c b.moved))

abbrev pub net_of : ℕ → ℕ → Books → ℤ
net_of u c b = get u c b.paid -ℤ get u c b.owed +ℤ get u c b.moved

abbrev pub member_balance : ℕ → Books → ℕ → MemberBalance
member_balance c b u = record {
  user_id = u;
  paid_cents = get u c b.paid;
  share_cents = get u c b.owed;
  settled_cents = get u c b.moved;
  net_cents = net_of u c b;
}

-- One round of the loop over the currencies.
unfoldable pub balance_of : Books → ℕ → CurrencyBalance
balance_of b c =
    let people = people_in c b in
    record {
      currency = c;
      total_cents = total_of c b.totals;
      members = map (member_balance c b) people;
      transfers = transfers (map (λ u. (u, net_of u c b)) people);
    }

unfoldable pub balances :
    List Expense → List (ExpenseShare × ℕ) → List Settlement → List CurrencyBalance
unfolding books balance_of
balances expenses shares settlements =
    let b = books expenses shares settlements in
    map (balance_of b) (sort_ids (map (λ t. t.0) b.totals))
