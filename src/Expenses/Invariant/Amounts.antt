-- ===== src/Expenses/Invariant/Amounts.antt =====
-- The dict `amounts` of a validated request: it exists, adds up, and has each person once.
use mathlib.Core.List.{append-nil, append_assoc}
use flight_pricing.Base.{
  ℕ, ◌≡◌, ◌≢◌, refl, sym, ap, ◌∙◌, true, false, List, [], ◌∷◌, ◌++◌, map, all, distinct, member,
  arith, ◌⊎◌, inl, inr, length, leb,
}
use flight_pricing.Base.Sums.{sum_by}
use flight_pricing.Base.Sort.{sort_ids, distinct-sort_ids, length-sort_by}
use flight_pricing.Base.Result.{ok}
use flight_pricing.Models.Money.{ExpenseShare}
use flight_pricing.Expenses.Split.{
  total, users_of, split_evenly_exact, absent, absent-append, all-absent-nil, insert_new,
}
use flight_pricing.Expenses.Schemas.{ExpenseIn, ShareIn, truthy, one_split}
use flight_pricing.Expenses.Service.{shares_of, amounts_of}

as_share : ShareIn → ExpenseShare
as_share s = record { user_id = s.user_id; amount_cents = s.amount_cents }

abbrev named : List ShareIn → List ℕ
named = map (λ s. s.user_id)

shares_of-eq-map :
    (d : List ExpenseShare) (ss : List ShareIn)
    → distinct (named ss) ≡ true
    → all (absent d) (named ss) ≡ true
    → shares_of d ss ≡ d ++ map as_share ss
unfolding as_share
shares_of-eq-map d [] h k = sym (append-nil d)
shares_of-eq-map d (s ∷ ss) h k =
    let fresh : member s.user_id (users_of d) ≡ false = ground arith in
    let rest : all (absent d) (named ss) ≡ true = ground arith in
    let new : member s.user_id (named ss) ≡ false = ground arith in
    let more : distinct (named ss) ≡ true = ground arith in
    rw (insert_new s.user_id s.amount_cents d fresh) (
      shares_of-eq-map (d ++ as_share s ∷ []) ss more
        (absent-append (as_share s) d (named ss) rest new)
      ∙ append_assoc d (as_share s ∷ []) (map as_share ss))

total-map : (ss : List ShareIn) → total (map as_share ss) ≡ sum_by (λ s. s.amount_cents) ss
unfolding as_share
total-map [] = refl
total-map (s ∷ ss) = omega (arith, total-map ss)

users_of-map : (ss : List ShareIn) → users_of (map as_share ss) ≡ named ss
unfolding as_share
users_of-map [] = refl
users_of-map (s ∷ ss) = ap (◌∷◌ s.user_id) (users_of-map ss)

-- What `_one_split` grants.
abbrev Split : ExpenseIn → Type 0
Split body =
    ((truthy body.shares ≡ true)
      × (sum_by (λ s. s.amount_cents) body.shares ≡ body.amount_cents)
      × (distinct (named body.shares) ≡ true))
    ⊎ ((truthy body.shares ≡ false)
        × (truthy body.participants ≡ true)
        × (distinct body.participants ≡ true))

one_split-Split : (body : ExpenseIn) → one_split body ≡ ok tt → Split body
unfolding one_split
one_split-Split body h = ground arith

sort_ids-ne-nil : (us : List ℕ) → truthy us ≡ true → sort_ids us ≢ []
sort_ids-ne-nil [] h = cc
sort_ids-ne-nil (u ∷ us) h = λ e. absurd (omega (arith, ap length e, length-sort_by leb (u ∷ us)))

-- A body that passes `_one_split` always yields shares: they add up to the amount, one a person.
pub amounts_of-total :
    (body : ExpenseIn)
    → one_split body ≡ ok tt
    → (amounts : List ExpenseShare) × (amounts_of body ≡ ok amounts)
      × (total amounts ≡ body.amount_cents)
      × (distinct (users_of amounts) ≡ true)
unfolding amounts_of
amounts_of-total body h = elim (one_split-Split body h) [
  | inl (given, sums, single) ↦
      let eq = shares_of-eq-map [] body.shares single (all-absent-nil (named body.shares)) in
      (
        map as_share body.shares,
        rw given (ap ok eq),
        total-map body.shares ∙ sums,
        ap distinct (users_of-map body.shares) ∙ single,
      )
  | inr (none_given, people, single) ↦
      let us = sort_ids body.participants in
      let (amounts, run, sums, users, _) =
        split_evenly_exact body.amount_cents us (distinct-sort_ids body.participants ∙ single)
          (sort_ids-ne-nil body.participants people) in
      (
        amounts,
        rw none_given run,
        sums,
        ap distinct users ∙ distinct-sort_ids body.participants ∙ single,
      )
]
