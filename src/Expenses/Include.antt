-- ===== src/Expenses/Include.antt =====
-- tp_backend/tp_api/expenses/service.py: bringing a late member into costs that were split evenly
-- over everybody else.
use flight_pricing.Base.{
  ℕ, ◌+◌, Bool, true, false, not, ◌&&◌, ◌||◌, some, List, [], ◌∷◌, leb, ltb, ◌==◌, opt_eq,
  if◌then◌else◌, member, any, all, filter, length,
}
use flight_pricing.Base.Sort.{sort_by, sort_ids}
use flight_pricing.Base.Result.{Result, ok, raise_if, ◌>>=◌, ◌>>◌, not_a_member}
use flight_pricing.Models.{Db}
use flight_pricing.Models.Money.{Expense, ExpenseShare}
use flight_pricing.Expenses.Split.{split_evenly, users_of}
use flight_pricing.Expenses.Service.{member_ids, live, store}

-- `order_by(Expense.spent_on, Expense.created_at)`
abbrev pub by_date : Expense → Expense → Bool
by_date a b =
    ltb a.spent_on b.spent_on || (a.spent_on == b.spent_on && leb a.created_at b.created_at)

-- `a == b` of two sets.
abbrev pub same_set : List ℕ → List ℕ → Bool
same_set xs ys = all (λ x. member x ys) xs && all (λ y. member y xs) ys

-- `a == b` of two dicts of shares: as many keys, and each with its value in the other.
abbrev pub same_shares : List ExpenseShare → List ExpenseShare → Bool
same_shares a b =
    length a == length b
    && all (λ s. any (λ t. t.user_id == s.user_id && t.amount_cents == s.amount_cents) b) a

-- `linked`: the costs that some payment of the trip names.
abbrev pub is_linked : Db → ℕ → ℕ → Bool
is_linked db trip_id expense_id =
    any (λ s. s.trip_id == trip_id && opt_eq s.expense_id (some expense_id)) db.settlements

-- The test of `_includable`'s loop: `or` evaluates the split only for a cost that passed so far.
unfoldable pub is_candidate : Db → ℕ → List ℕ → Expense → Result Bool
is_candidate db trip_id others e =
    if is_linked db trip_id e.expense_id || not (same_set (users_of e.shares) others)
    then ok false
    else do
      even ← split_evenly e.amount_cents (sort_ids (users_of e.shares))
      ok (same_shares e.shares even)

unfoldable pub pick : Db → ℕ → List ℕ → List Expense → Result (List Expense)
pick db trip_id others [] = ok []
pick db trip_id others (e ∷ es) = do
  wanted ← is_candidate db trip_id others e
  rest ← pick db trip_id others es
  ok (if wanted then e ∷ rest else rest)

-- `_includable`: the costs and the other members.
unfoldable pub includable : Db → ℕ → ℕ → Result (List Expense × List ℕ)
unfolding is_candidate pick
includable db trip_id user_id = do
  let members = member_ids db trip_id
  raise_if (not (member user_id members)) not_a_member
  let others = filter (λ u. not (u == user_id)) members
  out ← pick db trip_id others (sort_by by_date (live db trip_id))
  ok (out, others)

-- The loop of `include_member`, on the table and the number of costs touched.
unfoldable pub resplit :
    List ℕ → List ℕ → List Expense → List Expense → ℕ → Result (List Expense × ℕ)
resplit people chosen [] table touched = ok (table, touched)
resplit people chosen (e ∷ es) table touched = elim (member e.expense_id chosen) [
  | false ↦ resplit people chosen es table touched
  | true ↦ do
    amounts ← split_evenly e.amount_cents people
    resplit people chosen es (store (record e { shares = amounts }) table) (touched + 1)
]

-- `include_member`. Without a touched cost nothing is committed, and nothing has changed.
unfoldable pub include_member : Db → ℕ → ℕ → List ℕ → Result (Db × ℕ)
unfolding resplit
include_member db trip_id user_id chosen = do
  found ← includable db trip_id user_id
  let people = sort_ids (user_id ∷ found.1)
  done ← resplit people chosen found.0 db.expenses 0
  ok (record db { expenses = done.0 }, done.1)
