-- ===== src/Expenses/Split.antt =====
-- tp_backend/tp_api/expenses/service.py, `split_evenly`: a cost over people, as a dict of shares in
-- insertion order.
use flight_pricing.Base.{
  ℕ, ◌+◌, ◌-◌, ◌*◌, ◌/◌, ◌%◌, ◌≤◌, ◌≡◌, refl, Bool, true, false, not, ◌||◌, List, [], ◌∷◌, ◌++◌,
  map, All, all, sym, ap, ◌∙◌, length, arith, ltb, ◌==◌, if◌then◌else◌, member, distinct, min, ◌≢◌,
}
use mathlib.Core.List.{append-nil, append_assoc}
use flight_pricing.Base.Sums.{sum_by}
use flight_pricing.Base.Result.{Result, ok, err, zero_division}
use flight_pricing.Models.Money.{ExpenseShare}

-- `d[u] = a`
abbrev pub insert : ℕ → ℕ → List ExpenseShare → List ExpenseShare
insert u a [] = record { user_id = u; amount_cents = a } ∷ []
insert u a (s ∷ d) =
    if u == s.user_id then record { user_id = u; amount_cents = a } ∷ d else s ∷ insert u a d

-- The dict comprehension from its position `i` on.
split_from : ℕ → ℕ → ℕ → List ℕ → List ExpenseShare → List ExpenseShare
split_from base odd i [] d = d
split_from base odd i (u ∷ us) d =
    split_from base odd (i + 1) us (insert u (base + (if ltb i odd then 1 else 0)) d)

-- `divmod` raises when there is nobody to split over.
pub split_evenly : ℕ → List ℕ → Result (List ExpenseShare)
split_evenly amount_cents [] = err zero_division
split_evenly amount_cents (u ∷ us) =
    let n = length (u ∷ us) in ok (split_from (amount_cents / n) (amount_cents % n) 0 (u ∷ us) [])

abbrev pub total : List ExpenseShare → ℕ
total = sum_by (λ s. s.amount_cents)

abbrev pub users_of : List ExpenseShare → List ℕ
users_of = map (λ s. s.user_id)

test_split :
    split_evenly 100 (3 ∷ 1 ∷ 2 ∷ [])
    ≡ ok (
        record { user_id = 3; amount_cents = 34 }
        ∷ record { user_id = 1; amount_cents = 33 }
        ∷ record { user_id = 2; amount_cents = 33 }
        ∷ [])
unfolding split_evenly split_from
test_split = refl

-- An insertion at a key that is not there goes to the end.
pub insert_new :
    (u a : ℕ) (d : List ExpenseShare)
    → member u (users_of d) ≡ false
    → insert u a d ≡ d ++ record { user_id = u; amount_cents = a } ∷ []
insert_new u a [] h = refl
insert_new u a (s ∷ d) h = ground (arith, insert_new u a d)

-- The shares as a plain recursion over the positions.
even_shares : ℕ → ℕ → ℕ → List ℕ → List ExpenseShare
even_shares base odd i [] = []
even_shares base odd i (u ∷ us) =
    record { user_id = u; amount_cents = base + (if ltb i odd then 1 else 0) }
    ∷ even_shares base odd (i + 1) us

abbrev pub absent : List ExpenseShare → ℕ → Bool
absent d u = not (member u (users_of d))

pub users_of-append :
    (d e : List ExpenseShare) (v : ℕ)
    → member v (users_of (d ++ e)) ≡ (member v (users_of d) || member v (users_of e))
users_of-append [] e v = refl
users_of-append (s ∷ d) e v = ground (arith, users_of-append d e v)

pub absent-append :
    (s : ExpenseShare) (d : List ExpenseShare) (us : List ℕ)
    → all (absent d) us ≡ true
    → member s.user_id us ≡ false
    → all (absent (d ++ s ∷ [])) us ≡ true
absent-append s d [] h k = refl
absent-append s d (u ∷ us) h k = ground (arith, absent-append s d us, users_of-append d (s ∷ []) u)

split_from-eq-even_shares :
    (base odd i : ℕ) (us : List ℕ) (d : List ExpenseShare)
    → distinct us ≡ true
    → all (absent d) us ≡ true
    → split_from base odd i us d ≡ d ++ even_shares base odd i us
unfolding split_from even_shares
split_from-eq-even_shares base odd i [] d h k = sym (append-nil d)
split_from-eq-even_shares base odd i (u ∷ us) d h k =
    let a : ℕ = base + (if ltb i odd then 1 else 0) in
    let s : ExpenseShare = record { user_id = u; amount_cents = a } in
    let fresh : member u (users_of d) ≡ false = ground arith in
    let rest : all (absent d) us ≡ true = ground arith in
    let new : member u us ≡ false = ground arith in
    let more : distinct us ≡ true = ground arith in
    rw (insert_new u a d fresh) (
      split_from-eq-even_shares base odd (i + 1) us (d ++ s ∷ []) more
        (absent-append s d us rest new)
      ∙ append_assoc d (s ∷ []) (even_shares base odd (i + 1) us))

pub all-absent-nil : (us : List ℕ) → all (absent []) us ≡ true
all-absent-nil [] = refl
all-absent-nil (u ∷ us) = all-absent-nil us

users_of-even_shares : (base odd i : ℕ) (us : List ℕ) → users_of (even_shares base odd i us) ≡ us
unfolding even_shares
users_of-even_shares base odd i [] = refl
users_of-even_shares base odd i (u ∷ us) = ap (◌∷◌ u) (users_of-even_shares base odd (i + 1) us)

-- Below the position `odd` each share has one unit more.
total-even_shares :
    (base odd i : ℕ) (us : List ℕ)
    → total (even_shares base odd i us) ≡ base * length us + min (odd - i) (length us)
unfolding even_shares
total-even_shares base odd i [] = omega arith
total-even_shares base odd i (u ∷ us) = ground (arith, total-even_shares base odd (i + 1) us)

-- A share of an even split of `amount` over n people is the floor of amount / n, or one more.
abbrev pub IsEven : ℕ → ℕ → ExpenseShare → Type 0
IsEven amount n s = (amount / n ≤ s.amount_cents) × (s.amount_cents ≤ amount / n + 1)

even_shares-IsEven :
    (amount n odd i : ℕ) (us : List ℕ) → All (IsEven amount n) (even_shares (amount / n) odd i us)
unfolding even_shares
even_shares-IsEven amount n odd i [] = tt
even_shares-IsEven amount n odd i (u ∷ us) =
    (ground arith, even_shares-IsEven amount n odd (i + 1) us)

-- Over distinct people, of whom there is at least one, an even split succeeds: its parts add up to the
-- amount exactly, stand in the order of the people, one for each, and each is the amount divided by
-- the number of people, rounded down, or one more.
pub split_evenly_exact :
    (amount_cents : ℕ) (user_ids : List ℕ)
    → distinct user_ids ≡ true
    → user_ids ≢ []
    → (shares : List ExpenseShare) × (split_evenly amount_cents user_ids ≡ ok shares)
      × (total shares ≡ amount_cents)
      × (users_of shares ≡ user_ids)
      × All (IsEven amount_cents (length user_ids)) shares
unfolding split_evenly
split_evenly_exact amount [] h k = absurd (k refl)
split_evenly_exact amount (u ∷ us) h k =
    let n = length (u ∷ us) in
    let plain =
      split_from-eq-even_shares (amount / n) (amount % n) 0 (u ∷ us) [] h
        (all-absent-nil (u ∷ us)) in
    (
      even_shares (amount / n) (amount % n) 0 (u ∷ us),
      ap ok plain,
      total-even_shares (amount / n) (amount % n) 0 (u ∷ us) ∙ grind arith,
      users_of-even_shares (amount / n) (amount % n) 0 (u ∷ us),
      even_shares-IsEven amount n (amount % n) 0 (u ∷ us),
    )
