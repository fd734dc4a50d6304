-- ===== src/Expenses/Debts.antt =====
-- `has_balance` misses nobody: where it says no, the user's figure is zero in every currency.
use mathlib.Core.List.{foldl}
use flight_pricing.Base.{
  ℕ, ◌≡◌, sym, ◌∙◌, Bool, true, false, ◌||◌, List, [], ◌∷◌, map, ◌==◌, member, any, arith, inl, inr,
  Bool-cases,
}
use flight_pricing.Base.Int.{ℤ, pos, negsuc, ◌-ℤ◌}
use flight_pricing.Base.Sort.{sort_ids, member-sort_ids}
use flight_pricing.Models.{Db}
use flight_pricing.Models.Money.{Expense, ExpenseShare, Settlement}
use flight_pricing.Expenses.Tally.{add_at, users_in, users_in-add_at}
use flight_pricing.Expenses.Balances.{
  Totals, add_total, set_default, Books, no_books, enter_expense, enter_share, enter_settlement,
  books, people_in, net_of, member_balance, balance_of, balances,
}
use flight_pricing.Expenses.Balances.Even.{member_union, net_of_absent}
use flight_pricing.Expenses.Overview.{ledger, is_zero, has_balance}

abbrev keys : Totals → List ℕ
keys = map (λ t. t.0)

keys-add_total :
    (c c' : ℕ) (v : ℤ) (d : Totals)
    → member c (keys (add_total c' v d)) ≡ (c == c' || member c (keys d))
keys-add_total c c' v [] = ground arith
keys-add_total c c' v ((k, w) ∷ d) = ground (arith, keys-add_total c c' v d)

keys-set_default :
    (c c' : ℕ) (d : Totals) → member c (keys (set_default c' d)) ≡ (c == c' || member c (keys d))
keys-set_default c c' [] = ground arith
keys-set_default c c' ((k, w) ∷ d) = ground (arith, keys-set_default c c' d)

abbrev has_entry : ℕ → ℕ → Books → Bool
has_entry u c b =
    member u (users_in c b.paid) || member u (users_in c b.owed) || member u (users_in c b.moved)

-- A currency in which somebody has an entry has a total.
abbrev Totalled : Books → Type 0
Totalled b = (u c : ℕ) → has_entry u c b ≡ true → member c (keys b.totals) ≡ true

enter_expense-Totalled : (b : Books) (e : Expense) → Totalled b → Totalled (enter_expense b e)
unfolding enter_expense
enter_expense-Totalled b e t u c h = ground (
  arith,
  t u c,
  users_in-add_at u c e.payer_id e.currency (pos e.amount_cents) b.paid,
  keys-add_total c e.currency (pos e.amount_cents) b.totals,
)

enter_share-Totalled : (b : Books) (s : ExpenseShare × ℕ) → Totalled b → Totalled (enter_share b s)
unfolding enter_share
enter_share-Totalled b s t u c h = ground (
  arith,
  t u c,
  users_in-add_at u c s.0.user_id s.1 (pos s.0.amount_cents) b.owed,
  keys-set_default c s.1 b.totals,
)

enter_settlement-Totalled :
    (b : Books) (s : Settlement) → Totalled b → Totalled (enter_settlement b s)
unfolding enter_settlement
enter_settlement-Totalled b s t u c h =
    let sent = add_at s.from_user_id s.currency (pos s.amount_cents) b.moved in
    ground (
      arith,
      t u c,
      users_in-add_at u c s.to_user_id s.currency (pos 0 -ℤ pos s.amount_cents) sent,
      users_in-add_at u c s.from_user_id s.currency (pos s.amount_cents) b.moved,
      keys-set_default c s.currency b.totals,
    )

foldl-Totalled :
    {A : Type 0} (f : Books → A → Books) (xs : List A) (b : Books)
    → ((b : Books) (x : A) → Totalled b → Totalled (f b x))
    → Totalled b
    → Totalled (foldl f b xs)
foldl-Totalled f [] b keep t = t
foldl-Totalled f (x ∷ xs) b keep t = foldl-Totalled f xs (f b x) keep (keep b x t)

books-Totalled :
    (es : List Expense) (ss : List (ExpenseShare × ℕ)) (ts : List Settlement)
    → Totalled (books es ss ts)
unfolding books
books-Totalled es ss ts = foldl-Totalled enter_settlement ts _ enter_settlement-Totalled (
    foldl-Totalled enter_share ss _ enter_share-Totalled
      (foldl-Totalled enter_expense es no_books enter_expense-Totalled (λ u c h. cc)))

any-map :
    {B : Type 0} (p : B → Bool) (f : ℕ → B) (x : ℕ) (xs : List ℕ)
    → any p (map f xs) ≡ false
    → member x xs ≡ true
    → p (f x) ≡ false
any-map p f x [] h m = cc
any-map p f x (y ∷ ys) h m = elim (Bool-cases (x == y)) [
  | inl same ↦ let e : x ≡ y = ground arith in rw e (ground arith)
  | inr other ↦ any-map p f x ys (ground arith) (ground arith)
]

zero_of : (n : ℤ) → is_zero n ≡ true → n ≡ pos 0
zero_of (pos n) h = ground arith
zero_of (negsuc n) h = cc

-- Where `has_balance` answers no, the user's net figure on the trip is zero in every currency, also
-- in one in which the trip has no rows.
pub has_balance_complete :
    (db : Db) (trip_id u c : ℕ)
    → has_balance db trip_id u ≡ false
    → let l = ledger db trip_id in net_of u c (books l.expenses l.shares l.settlements) ≡ pos 0
unfolding has_balance balances balance_of
has_balance_complete db trip_id u c h =
    let l = ledger db trip_id in
    let b = books l.expenses l.shares l.settlements in
    elim (Bool-cases (member u (people_in c b))) [
      | inr away ↦ net_of_absent u c b away
      | inl here ↦
          let entry : has_entry u c b ≡ true =
            sym (member_union u (users_in c b.paid) (users_in c b.owed) (users_in c b.moved))
            ∙ here in
          let known = books-Totalled l.expenses l.shares l.settlements u c entry in
          let shown : member c (sort_ids (keys b.totals)) ≡ true =
            member-sort_ids c (keys b.totals) ∙ known in
          let pile = any-map _ (balance_of b) c (sort_ids (keys b.totals)) h shown in
          let mine = any-map _ (member_balance c b) u (people_in c b) pile here in
          zero_of (net_of u c b) (ground arith)
    ]
