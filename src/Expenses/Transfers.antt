-- ===== src/Expenses/Transfers.antt =====
-- tp_backend/tp_api/expenses/service.py, `_transfers`: who should pay whom so that all are even.
pub mod Settle
use flight_pricing.Base.{
  ℕ, zero, suc, ◌+◌, ◌-◌, ◌≡◌, refl, Bool, true, false, ◌&&◌, ◌||◌, List, [], ◌∷◌, length, ltb, leb,
  ◌==◌, if◌then◌else◌, min,
}
use flight_pricing.Base.Int.{ℤ, pos, negsuc, pos_part, neg_part}
use flight_pricing.Base.Sort.{sort_by}

pub record Transfer : Type 0 where
  pub from_user_id : ℕ
  pub to_user_id : ℕ
  pub amount_cents : ℕ

-- A person and what is left of their debt or credit, in minor units.
abbrev pub Entry : Type 0
Entry = ℕ × ℕ

-- `net`, a dict over the people of one currency.
abbrev pub Net : Type 0
Net = List (ℕ × ℤ)

-- `((u, n) for u, n in net.items() if n > 0)`
pub credits : Net → List Entry
credits [] = []
credits ((u, n) ∷ net) = if ltb 0 (pos_part n) then (u, pos_part n) ∷ credits net else credits net

-- `((u, -n) for u, n in net.items() if n < 0)`
pub debts : Net → List Entry
debts [] = []
debts ((u, n) ∷ net) = if ltb 0 (neg_part n) then (u, neg_part n) ∷ debts net else debts net

-- `key=lambda p: (-p[1], p[0])`
pub by_size : Entry → Entry → Bool
by_size (u, n) (v, m) = ltb m n || (m == n && leb u v)

-- The rest of a list from its index on, once the entry there has `left` to go.
abbrev pub advance : ℕ → ℕ → List Entry → List Entry
advance user left rest = if left == 0 then rest else (user, left) ∷ rest

-- The loop, over `owes[i:]` and `owed[j:]`: the entries before the indices are not read again. The
-- fuel is a bound on its rounds.
pub settle : ℕ → List Entry → List Entry → List Transfer
settle zero owes owed = []
settle (suc fuel) [] owed = []
settle (suc fuel) (d ∷ owes) [] = []
settle (suc fuel) ((debtor, debt) ∷ owes) ((creditor, credit) ∷ owed) =
    let pay = min debt credit in
    record { from_user_id = debtor; to_user_id = creditor; amount_cents = pay }
    ∷ settle fuel (advance debtor (debt - pay) owes) (advance creditor (credit - pay) owed)

-- Each round exhausts an entry, so their number is fuel enough.
unfoldable pub transfers : Net → List Transfer
unfolding credits debts by_size settle
transfers net =
    let owed = sort_by by_size (credits net) in
    let owes = sort_by by_size (debts net) in settle (length owes + length owed) owes owed

test_transfers :
    transfers ((1, pos 50) ∷ (2, negsuc 19) ∷ (3, negsuc 29) ∷ [])
    ≡ record { from_user_id = 3; to_user_id = 1; amount_cents = 30 }
      ∷ record { from_user_id = 2; to_user_id = 1; amount_cents = 20 }
      ∷ []
unfolding transfers
test_transfers = refl
