-- ===== src/Expenses/Tally.antt =====
-- The `defaultdict(int)`s of `_balances` (tp_backend/tp_api/expenses/service.py), keyed by a user and
-- a currency, and its `totals`, keyed by a currency. Reading a missing key gives 0; that Python also
-- stores the 0 is seen by no later read.
use mathlib.Core.Path.{ap₂}
use flight_pricing.Base.{
  ℕ, ◌≡◌, Bool, true, ◌&&◌, ◌||◌, List, [], ◌∷◌, All, ◌==◌, if◌then◌else◌, arith, member, distinct,
  Bool-cases, inl, inr, ◌∙◌,
}
use flight_pricing.Base.Int.{ℤ, pos, ◌+ℤ◌, int_laws}
use flight_pricing.Base.Sums.{sum_ℤ, sum_ℤ-add, sum_ℤ-single, sum_ℤ-zero}

abbrev pub Tally : Type 0
Tally = List (ℕ × ℕ × ℤ)

abbrev pub same_key : ℕ → ℕ → ℕ → ℕ → Bool
same_key u c u' c' = c == c' && u == u'

-- `d[(u, c)]`
abbrev pub get : ℕ → ℕ → Tally → ℤ
get u c [] = pos 0
get u c ((u', c', v) ∷ d) = if same_key u' c' u c then v else get u c d

-- `d[(u, c)] += v`
abbrev pub add_at : ℕ → ℕ → ℤ → Tally → Tally
add_at u c v [] = (u, c, v) ∷ []
add_at u c v ((u', c', w) ∷ d) =
    if same_key u' c' u c then (u', c', w +ℤ v) ∷ d else (u', c', w) ∷ add_at u c v d

-- `{u for u, c in d if c == currency}`, before its elements are made distinct
abbrev pub users_in : ℕ → Tally → List ℕ
users_in c [] = []
users_in c ((u', c', v) ∷ d) = if c' == c then u' ∷ users_in c d else users_in c d

pub get-add_at :
    (u c u' c' : ℕ) (v : ℤ) (d : Tally)
    → get u c (add_at u' c' v d) ≡ get u c d +ℤ (if same_key u' c' u c then v else pos 0)
get-add_at u c u' c' v [] = grind int_laws
get-add_at u c u' c' v ((u₁, c₁, w) ∷ d) = grind (int_laws, get-add_at u c u' c' v d)

pub users_in-add_at :
    (u c u' c' : ℕ) (v : ℤ) (d : Tally)
    → member u (users_in c (add_at u' c' v d)) ≡ (same_key u' c' u c || member u (users_in c d))
users_in-add_at u c u' c' v [] = ground arith
users_in-add_at u c u' c' v ((u₁, c₁, w) ∷ d) = ground (arith, users_in-add_at u c u' c' v d)

-- A posting: `d[(user, currency)] += value`.
abbrev pub Posting : Type 0
Posting = ℕ × ℕ × ℤ

abbrev pub post : Tally → Posting → Tally
post d (u, c, v) = add_at u c v d

abbrev pub post_all : Tally → List Posting → Tally
post_all d [] = d
post_all d (p ∷ ps) = post_all (post d p) ps

-- What the postings add up to at one key, and in one currency.
abbrev pub posted : ℕ → ℕ → List Posting → ℤ
posted u c = sum_ℤ (λ p. if same_key p.0 p.1 u c then p.2 else pos 0)

abbrev pub posted_in : ℕ → List Posting → ℤ
posted_in c = sum_ℤ (λ p. if p.1 == c then p.2 else pos 0)

pub get-post_all :
    (u c : ℕ) (d : Tally) (ps : List Posting) → get u c (post_all d ps) ≡ get u c d +ℤ posted u c ps
get-post_all u c d [] = grind int_laws
get-post_all u c d ((u', c', v) ∷ ps) =
    grind (int_laws, get-post_all u c (add_at u' c' v d) ps, get-add_at u c u' c' v d)

users_in-post_all :
    (u c : ℕ) (d : Tally) (ps : List Posting)
    → member u (users_in c d) ≡ true
    → member u (users_in c (post_all d ps)) ≡ true
users_in-post_all u c d [] h = h
users_in-post_all u c d ((u', c', v) ∷ ps) h =
    users_in-post_all u c (add_at u' c' v d) ps (ground (arith, users_in-add_at u c u' c' v d))

-- Everyone who is posted to in a currency is among its users.
abbrev pub Covers : List ℕ → ℕ → Posting → Type 0
Covers us c p = p.1 ≡ c → member p.0 us ≡ true

single_posting :
    (us : List ℕ) (c u' c' : ℕ) (v : ℤ)
    → distinct us ≡ true
    → (c' ≡ c → member u' us ≡ true)
    → sum_ℤ (λ u. if same_key u' c' u c then v else pos 0) us ≡ (if c' == c then v else pos 0)
single_posting us c u' c' v d h = elim (Bool-cases (c' == c)) [
  | inl here ↦ simp here (sum_ℤ-single u' v us d (h (ground arith)))
  | inr elsewhere ↦ simp elsewhere (sum_ℤ-zero us)
]

-- Over distinct people that cover the postings of a currency, each posting counts once.
pub sum_ℤ-posted :
    (us : List ℕ) (c : ℕ) (ps : List Posting)
    → distinct us ≡ true
    → All (Covers us c) ps
    → sum_ℤ (λ u. posted u c ps) us ≡ posted_in c ps
sum_ℤ-posted us c [] d h = sum_ℤ-zero us
sum_ℤ-posted us c ((u', c', v) ∷ ps) d h =
    sum_ℤ-add (λ u. if same_key u' c' u c then v else pos 0) (λ u. posted u c ps) us
    ∙ ap₂ ◌+ℤ◌ (single_posting us c u' c' v d h.0) (sum_ℤ-posted us c ps d h.1)

-- People that cover the users of a posted tally cover its postings.
pub Covers-post_all :
    (us : List ℕ) (c : ℕ) (d : Tally) (ps : List Posting)
    → ((u : ℕ) → member u (users_in c (post_all d ps)) ≡ true → member u us ≡ true)
    → All (Covers us c) ps
Covers-post_all us c d [] h = tt
Covers-post_all us c d ((u', c', v) ∷ ps) h = (
  (λ e. h u' (
      users_in-post_all u' c (add_at u' c' v d) ps
        (ground (arith, users_in-add_at u' c u' c' v d)))),
  Covers-post_all us c (add_at u' c' v d) ps h,
)
