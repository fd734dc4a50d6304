-- ===== src/Expenses/Balances/Figures.antt =====
-- The columns and the net figures of `_balances`, in terms of the rows.
use mathlib.Core.List.{foldl}
use flight_pricing.Base.{ℕ, ◌≡◌, refl, ap, ◌∙◌, ◌&&◌, List, [], ◌∷◌, ◌==◌, if◌then◌else◌}
use flight_pricing.Base.Int.{pos, ◌+ℤ◌, ◌-ℤ◌, int_laws}
use flight_pricing.Base.Sums.{sum_by}
use flight_pricing.Models.Money.{Expense, ExpenseShare, Settlement}
use flight_pricing.Expenses.Tally.{Posting, get, post_all, posted, posted_in, get-post_all}
use flight_pricing.Expenses.Balances.{
  Books, no_books, enter_expense, enter_share, enter_settlement, books, net_of,
}

pub paid_postings : List Expense → List Posting
paid_postings [] = []
paid_postings (e ∷ es) = (e.payer_id, e.currency, pos e.amount_cents) ∷ paid_postings es

pub owed_postings : List (ExpenseShare × ℕ) → List Posting
owed_postings [] = []
owed_postings ((s, c) ∷ ss) = (s.user_id, c, pos s.amount_cents) ∷ owed_postings ss

pub moved_postings : List Settlement → List Posting
moved_postings [] = []
moved_postings (s ∷ ss) =
    (s.from_user_id, s.currency, pos s.amount_cents)
    ∷ (s.to_user_id, s.currency, pos 0 -ℤ pos s.amount_cents)
    ∷ moved_postings ss

-- Each loop fills its own dict and leaves the other two.
foldl-enter_expense :
    (b : Books) (es : List Expense)
    → let r = foldl enter_expense b es in
      (r.paid ≡ post_all b.paid (paid_postings es)) × (r.owed ≡ b.owed) × (r.moved ≡ b.moved)
unfolding enter_expense paid_postings
foldl-enter_expense b [] = (refl, refl, refl)
foldl-enter_expense b (e ∷ es) = foldl-enter_expense (enter_expense b e) es

foldl-enter_share :
    (b : Books) (ss : List (ExpenseShare × ℕ))
    → let r = foldl enter_share b ss in
      (r.paid ≡ b.paid) × (r.owed ≡ post_all b.owed (owed_postings ss)) × (r.moved ≡ b.moved)
unfolding enter_share owed_postings
foldl-enter_share b [] = (refl, refl, refl)
foldl-enter_share b (s ∷ ss) = foldl-enter_share (enter_share b s) ss

foldl-enter_settlement :
    (b : Books) (ss : List Settlement)
    → let r = foldl enter_settlement b ss in
      (r.paid ≡ b.paid) × (r.owed ≡ b.owed) × (r.moved ≡ post_all b.moved (moved_postings ss))
unfolding enter_settlement moved_postings
foldl-enter_settlement b [] = (refl, refl, refl)
foldl-enter_settlement b (s ∷ ss) = foldl-enter_settlement (enter_settlement b s) ss

module _ (es : List Expense) (ss : List (ExpenseShare × ℕ)) (ts : List Settlement) where
  pub books_lem :
      let r = books es ss ts in
      (r.paid ≡ post_all [] (paid_postings es))
      × (r.owed ≡ post_all [] (owed_postings ss))
      × (r.moved ≡ post_all [] (moved_postings ts))
  unfolding books
  books_lem =
      let b₁ = foldl enter_expense no_books es in
      let b₂ = foldl enter_share b₁ ss in
      let p = foldl-enter_expense no_books es in
      let q = foldl-enter_share b₁ ss in
      let r = foldl-enter_settlement b₂ ts in
      (
        r.0 ∙ q.0 ∙ p.0,
        r.1 ∙ q.1 ∙ ap (λ d. post_all d (owed_postings ss)) p.1,
        r.2 ∙ ap (λ d. post_all d (moved_postings ts)) (q.2 ∙ p.2),
      )

-- What the rows say: a person's costs, shares, payments made and payments received in a currency.
abbrev pub spent : ℕ → ℕ → List Expense → ℕ
spent u c = sum_by (λ e. if e.currency == c && e.payer_id == u then e.amount_cents else 0)

abbrev pub shared : ℕ → ℕ → List (ExpenseShare × ℕ) → ℕ
shared u c = sum_by (λ p. if p.1 == c && p.0.user_id == u then p.0.amount_cents else 0)

abbrev pub paid_out : ℕ → ℕ → List Settlement → ℕ
paid_out u c = sum_by (λ s. if s.currency == c && s.from_user_id == u then s.amount_cents else 0)

abbrev pub paid_in : ℕ → ℕ → List Settlement → ℕ
paid_in u c = sum_by (λ s. if s.currency == c && s.to_user_id == u then s.amount_cents else 0)

-- All costs and all shares in a currency.
abbrev pub spent_in : ℕ → List Expense → ℕ
spent_in c = sum_by (λ e. if e.currency == c then e.amount_cents else 0)

abbrev pub shared_in : ℕ → List (ExpenseShare × ℕ) → ℕ
shared_in c = sum_by (λ p. if p.1 == c then p.0.amount_cents else 0)

pub posted-paid : (u c : ℕ) (es : List Expense) → posted u c (paid_postings es) ≡ pos (spent u c es)
unfolding paid_postings
posted-paid u c [] = refl
posted-paid u c (e ∷ es) = grind (int_laws, posted-paid u c es)

pub posted-owed :
    (u c : ℕ) (ss : List (ExpenseShare × ℕ)) → posted u c (owed_postings ss) ≡ pos (shared u c ss)
unfolding owed_postings
posted-owed u c [] = refl
posted-owed u c (s ∷ ss) = grind (int_laws, posted-owed u c ss)

pub posted-moved :
    (u c : ℕ) (ts : List Settlement)
    → posted u c (moved_postings ts) ≡ pos (paid_out u c ts) -ℤ pos (paid_in u c ts)
unfolding moved_postings
posted-moved u c [] = grind int_laws
posted-moved u c (s ∷ ts) = grind (int_laws, posted-moved u c ts)

pub posted_in-paid :
    (c : ℕ) (es : List Expense) → posted_in c (paid_postings es) ≡ pos (spent_in c es)
unfolding paid_postings
posted_in-paid c [] = refl
posted_in-paid c (e ∷ es) = grind (int_laws, posted_in-paid c es)

pub posted_in-owed :
    (c : ℕ) (ss : List (ExpenseShare × ℕ)) → posted_in c (owed_postings ss) ≡ pos (shared_in c ss)
unfolding owed_postings
posted_in-owed c [] = refl
posted_in-owed c (s ∷ ss) = grind (int_laws, posted_in-owed c ss)

pub posted_in-moved : (c : ℕ) (ts : List Settlement) → posted_in c (moved_postings ts) ≡ pos 0
unfolding moved_postings
posted_in-moved c [] = refl
posted_in-moved c (s ∷ ts) = grind (int_laws, posted_in-moved c ts)

pub get-posted : (u c : ℕ) (ps : List Posting) → get u c (post_all [] ps) ≡ posted u c ps
get-posted u c ps = grind (int_laws, get-post_all u c [] ps)

module _ (es : List Expense) (ss : List (ExpenseShare × ℕ)) (ts : List Settlement) where
  -- The three columns of a person's balance.
  pub columns :
      (u c : ℕ)
      → let r = books es ss ts in
        (get u c r.paid ≡ pos (spent u c es))
        × (get u c r.owed ≡ pos (shared u c ss))
        × (get u c r.moved ≡ pos (paid_out u c ts) -ℤ pos (paid_in u c ts))
  columns u c =
      let l = books_lem es ss ts in
      (
        ap (get u c) l.0 ∙ get-posted u c (paid_postings es) ∙ posted-paid u c es,
        ap (get u c) l.1 ∙ get-posted u c (owed_postings ss) ∙ posted-owed u c ss,
        ap (get u c) l.2 ∙ get-posted u c (moved_postings ts) ∙ posted-moved u c ts,
      )

  -- A net figure is what a person spent and paid out, less what they owe and were paid.
  pub net_of_rows :
      (u c : ℕ)
      → net_of u c (books es ss ts) +ℤ pos (shared u c ss) +ℤ pos (paid_in u c ts)
        ≡ pos (spent u c es) +ℤ pos (paid_out u c ts)
  net_of_rows u c = grind (int_laws, columns u c)
