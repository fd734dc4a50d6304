-- ===== src/Expenses/Balances/Even.antt =====
-- The net figures of a currency add up to zero, and the suggested transfers bring them all to zero.
use flight_pricing.Base.{
  ℕ, ◌≡◌, refl, sym, ap, ◌∙◌, true, false, ◌&&◌, ◌||◌, List, [], ◌∷◌, ◌++◌, map, ◌==◌,
  if◌then◌else◌, arith, member, distinct, dedup, member-dedup, distinct-dedup, member-append, none,
  subst, Bool-cases, inl, inr,
}
use mathlib.Core.Path.{ap₂}
use flight_pricing.Base.Int.{ℤ, pos, ◌+ℤ◌, ◌-ℤ◌, int_laws}
use flight_pricing.Base.Sums.{sum_ℤ, sum_ℤ-add, sum_ℤ-sub, sum_by-append}
use flight_pricing.Base.Sort.{sort_ids, member-sort_ids, distinct-sort_ids}
use flight_pricing.Models.Money.{Expense, ExpenseShare, Settlement}
use flight_pricing.Expenses.Tally.{
  Tally, Posting, get, post_all, posted_in, users_in, sum_ℤ-posted, Covers-post_all,
}
use flight_pricing.Expenses.Transfers.{Transfer, Net, transfers}
use flight_pricing.Expenses.Transfers.Settle.{figure, people, transfers_settle, sent, received}
use flight_pricing.Expenses.Balances.{
  Books, books, people_in, net_of, member_balance, balance_of, MemberBalance,
}
use flight_pricing.Expenses.Balances.Figures.{
  books_lem, paid_postings, owed_postings, moved_postings, posted_in-paid, posted_in-owed,
  posted_in-moved, get-posted, spent_in, shared_in, paid_out, paid_in, net_of_rows,
}

pub member_union :
    (u : ℕ) (xs ys zs : List ℕ)
    → member u (sort_ids (dedup (xs ++ ys ++ zs))) ≡ (member u xs || member u ys || member u zs)
member_union u xs ys zs =
    member-sort_ids u (dedup (xs ++ ys ++ zs))
    ∙ member-dedup u (xs ++ ys ++ zs)
    ∙ ground (arith, member-append u (xs ++ ys) zs, member-append u xs ys)

distinct-people_in : (b : Books) (c : ℕ) → distinct (people_in c b) ≡ true
distinct-people_in b c =
    let users = users_in c b.paid ++ users_in c b.owed ++ users_in c b.moved in
    distinct-sort_ids (dedup users) ∙ distinct-dedup users

-- Over people that cover a tally's postings, its figures add up to what was posted.
sum_ℤ-get :
    (us : List ℕ) (c : ℕ) (d : Tally) (ps : List Posting)
    → d ≡ post_all [] ps
    → distinct us ≡ true
    → ((u : ℕ) → member u (users_in c d) ≡ true → member u us ≡ true)
    → sum_ℤ (λ u. get u c d) us ≡ posted_in c ps
sum_ℤ-get us c d ps e h k =
    let covers =
      Covers-post_all us c [] ps
        (λ u m. k u (subst (λ t. member u (users_in c t) ≡ true) (sym e) m)) in
    simp (e, get-posted) (sum_ℤ-posted us c ps h covers)

sum_ℤ-map : (f : ℕ → ℕ × ℤ) (us : List ℕ) → sum_ℤ (λ e. e.1) (map f us) ≡ sum_ℤ (λ u. (f u).1) us
sum_ℤ-map f [] = refl
sum_ℤ-map f (u ∷ us) = ap (◌+ℤ◌ (f u).1) (sum_ℤ-map f us)

module _ (es : List Expense) (ss : List (ExpenseShare × ℕ)) (ts : List Settlement) (c : ℕ) where
  -- The net figures of a currency are its costs less its shares.
  sum_ℤ-net_of :
      let b = books es ss ts in
      sum_ℤ (λ u. net_of u c b) (people_in c b) ≡ pos (spent_in c es) -ℤ pos (shared_in c ss)
  sum_ℤ-net_of =
      let b = books es ss ts in
      let us = people_in c b in
      let l = books_lem es ss ts in
      let d = distinct-people_in b c in
      let m =
        λ (u : ℕ). member_union u (users_in c b.paid) (users_in c b.owed) (users_in c b.moved) in
      let p = sum_ℤ-get us c b.paid (paid_postings es) l.0 d (λ u h. ground (arith, m u)) in
      let q = sum_ℤ-get us c b.owed (owed_postings ss) l.1 d (λ u h. ground (arith, m u)) in
      let r = sum_ℤ-get us c b.moved (moved_postings ts) l.2 d (λ u h. ground (arith, m u)) in
      let split =
        sum_ℤ-add (λ u. get u c b.paid -ℤ get u c b.owed) (λ u. get u c b.moved) us
        ∙ ap (λ t. t +ℤ sum_ℤ (λ u. get u c b.moved) us)
            (sum_ℤ-sub (λ u. get u c b.paid) (λ u. get u c b.owed) us) in
      split
      ∙ ap₂ ◌+ℤ◌ (ap₂ ◌-ℤ◌ (p ∙ posted_in-paid c es) (q ∙ posted_in-owed c ss))
          (r ∙ posted_in-moved c ts)
      ∙ grind int_laws

map-map :
    (f : ℕ → MemberBalance) (us : List ℕ)
    → sum_ℤ (λ m. m.net_cents) (map f us) ≡ sum_ℤ (λ u. (f u).net_cents) us
map-map f [] = refl
map-map f (u ∷ us) = ap (◌+ℤ◌ (f u).net_cents) (map-map f us)

-- In a currency whose shares add up to its costs, the members' net figures add up to zero.
pub balance_zero_sum :
    (es : List Expense) (ss : List (ExpenseShare × ℕ)) (ts : List Settlement) (c : ℕ)
    → spent_in c es ≡ shared_in c ss
    → sum_ℤ (λ m. m.net_cents) (balance_of (books es ss ts) c).members ≡ pos 0
unfolding balance_of
balance_zero_sum es ss ts c e =
    let b = books es ss ts in
    map-map (member_balance c b) (people_in c b) ∙ sum_ℤ-net_of es ss ts c ∙ rw e (grind int_laws)

people-map : (f : ℕ → ℤ) (us : List ℕ) → people (map (λ u. (u, f u)) us) ≡ us
people-map f [] = refl
people-map f (u ∷ us) = ap (◌∷◌ u) (people-map f us)

figure-map :
    (f : ℕ → ℤ) (u : ℕ) (us : List ℕ)
    → figure u (map (λ v. (v, f v)) us) ≡ (if member u us then f u else pos 0)
figure-map f u [] = refl
figure-map f u (v ∷ us) = ground (arith, figure-map f u us)

get_absent : (u c : ℕ) (d : Tally) → member u (users_in c d) ≡ false → get u c d ≡ pos 0
get_absent u c [] h = refl
get_absent u c ((u', c', v) ∷ d) h = ground (arith, get_absent u c d)

-- Someone who is not among a currency's people has no figure in it.
pub net_of_absent : (u c : ℕ) (b : Books) → member u (people_in c b) ≡ false → net_of u c b ≡ pos 0
net_of_absent u c b h = grind (
  int_laws,
  member_union u (users_in c b.paid) (users_in c b.owed) (users_in c b.moved),
  get_absent u c b.paid,
  get_absent u c b.owed,
  get_absent u c b.moved,
)

-- A suggested transfer, recorded as a payment that names no cost.
abbrev pub as_settlement : ℕ → Transfer → Settlement
as_settlement c t = record {
  settlement_id = 0;
  trip_id = 0;
  from_user_id = t.from_user_id;
  to_user_id = t.to_user_id;
  expense_id = none;
  amount_cents = t.amount_cents;
  currency = c;
  paid_on = 0;
}

paid_out-as_settlement :
    (u c : ℕ) (trs : List Transfer) → paid_out u c (map (as_settlement c) trs) ≡ sent u trs
paid_out-as_settlement u c [] = refl
paid_out-as_settlement u c (t ∷ trs) = ground (arith, paid_out-as_settlement u c trs)

paid_in-as_settlement :
    (u c : ℕ) (trs : List Transfer) → paid_in u c (map (as_settlement c) trs) ≡ received u trs
paid_in-as_settlement u c [] = refl
paid_in-as_settlement u c (t ∷ trs) = ground (arith, paid_in-as_settlement u c trs)

-- The figures that `transfers` is given are the net figures, of anybody.
figure-net :
    (b : Books) (u c : ℕ) → figure u (map (λ v. (v, net_of v c b)) (people_in c b)) ≡ net_of u c b
figure-net b u c = elim (Bool-cases (member u (people_in c b))) [
  | inl here ↦ figure-map (λ v. net_of v c b) u (people_in c b) ∙ rw here
  | inr away ↦
      figure-map (λ v. net_of v c b) u (people_in c b) ∙ rw away (sym (net_of_absent u c b away))
]

-- In a currency whose shares add up to its costs, recording the suggested transfers as payments
-- brings everybody's net figure to zero.
pub settle_up :
    (es : List Expense) (ss : List (ExpenseShare × ℕ)) (ts : List Settlement) (c u : ℕ)
    → spent_in c es ≡ shared_in c ss
    → let trs = (balance_of (books es ss ts) c).transfers in
      net_of u c (books es ss (ts ++ map (as_settlement c) trs)) ≡ pos 0
unfolding balance_of
settle_up es ss ts c u e =
    let b = books es ss ts in
    let net : Net = map (λ v. (v, net_of v c b)) (people_in c b) in
    let trs : List Transfer = transfers net in
    let names = people-map (λ v. net_of v c b) (people_in c b) in
    let zero : sum_ℤ (λ p. p.1) net ≡ pos 0 =
      sum_ℤ-map (λ v. (v, net_of v c b)) (people_in c b)
      ∙ sum_ℤ-net_of es ss ts c
      ∙ rw e (grind int_laws) in
    let even = transfers_settle net u (ap distinct names ∙ distinct-people_in b c) zero in
    grind (
      int_laws,
      even,
      figure-net b u c,
      net_of_rows es ss ts u c,
      net_of_rows es ss (ts ++ map (as_settlement c) trs) u c,
      sum_by-append (λ s. if s.currency == c && s.from_user_id == u then s.amount_cents else 0) ts
          (map (as_settlement c) trs),
      sum_by-append (λ s. if s.currency == c && s.to_user_id == u then s.amount_cents else 0) ts
          (map (as_settlement c) trs),
      paid_out-as_settlement u c trs,
      paid_in-as_settlement u c trs,
    )
