-- ===== src/Expenses/Invariant/Tables.antt =====
-- How writing a row back, or adding one, changes what is found in the table of costs.
use flight_pricing.Base.{
  ℕ, ◌≡◌, refl, Bool, true, false, not, ◌&&◌, ◌||◌, some, List, [], ◌∷◌, ◌++◌, ◌==◌, opt_eq,
  if◌then◌else◌, All, all, any, distinct, member, arith, ◌⊎◌, inl, inr, Bool-cases, Option-cases,
}
use flight_pricing.Models.Money.{Expense, Settlement}
use flight_pricing.Expenses.Service.{row, store}
use flight_pricing.Expenses.Invariant.{Adds, is_backed, ids}

pub row-store :
    (x : ℕ) (e : Expense) (es : List Expense) {r : Expense}
    → row e.expense_id es ≡ some r
    → row x (store e es) ≡ (if e.expense_id == x then some e else row x es)
row-store x e [] h = cc
row-store x e (r' ∷ es) {r} h = ground (arith, row-store x e es {r = r})

pub ids-store : (e : Expense) (es : List Expense) → ids (store e es) ≡ ids es
ids-store e [] = refl
ids-store e (r ∷ es) = ground (arith, ids-store e es)

pub Adds-store : (e : Expense) (es : List Expense) → Adds e → All Adds es → All Adds (store e es)
Adds-store e [] a h = tt
Adds-store e (r ∷ es) a h = ground (arith, Adds-store e es a h.1)

-- The found row has the key it was looked up by.
pub row-key : (x : ℕ) (es : List Expense) {r : Expense} → row x es ≡ some r → r.expense_id ≡ x
row-key x [] h = cc
row-key x (e ∷ es) {r} h = elim (Bool-cases (e.expense_id == x)) [
  | inl hit ↦ ground arith
  | inr miss ↦ row-key x es {r = r} (ground arith)
]

pub row-Adds : (x : ℕ) (es : List Expense) {r : Expense} → All Adds es → row x es ≡ some r → Adds r
row-Adds x [] a h = cc
row-Adds x (e ∷ es) {r} a h = elim (Bool-cases (e.expense_id == x)) [
  | inl hit ↦ let same : e ≡ r = ground arith in rw (← same) a.0
  | inr miss ↦ row-Adds x es {r = r} a.1 (ground arith)
]

pub row-append :
    (x : ℕ) (es : List Expense) (e : Expense) {r : Expense}
    → row x es ≡ some r
    → row x (es ++ e ∷ []) ≡ some r
row-append x [] e h = cc
row-append x (e' ∷ es) e {r} h = ground (arith, row-append x es e {r = r})

pub ids-append :
    (es : List Expense) (e : Expense)
    → member e.expense_id (ids es) ≡ false
    → distinct (ids es) ≡ true
    → distinct (ids (es ++ e ∷ [])) ≡ true
ids-append es e h d = distinct_snoc es h d
  where
    member_snoc :
        (x : ℕ) (rs : List Expense)
        → member x (ids (rs ++ e ∷ [])) ≡ (member x (ids rs) || x == e.expense_id)
    member_snoc x [] = ground arith
    member_snoc x (r ∷ rs) = ground (arith, member_snoc x rs)

    distinct_snoc :
        (rs : List Expense)
        → member e.expense_id (ids rs) ≡ false
        → distinct (ids rs) ≡ true
        → distinct (ids (rs ++ e ∷ [])) ≡ true
    distinct_snoc [] h d = refl
    distinct_snoc (r ∷ rs) h d = ground (arith, distinct_snoc rs, member_snoc r.expense_id rs)

-- Two rows agree on what a payment relies on.
abbrev pub same_terms : Expense → Expense → Bool
same_terms a b =
    a.payer_id == b.payer_id && a.currency == b.currency && a.trip_id == b.trip_id && not b.deleted

is_backed-store :
    (e : Expense) (es : List Expense) (s : Settlement) {r : Expense}
    → row e.expense_id es ≡ some r
    → (same_terms r e ≡ true) ⊎ (opt_eq s.expense_id (some e.expense_id) ≡ false)
    → is_backed es s ≡ true
    → is_backed (store e es) s ≡ true
is_backed-store e es s {r} h k b = elim (Option-cases s.expense_id) [
  | inl unnamed ↦ ground arith
  | inr (x, named) ↦ ground (arith, row-store x e es {r = r} h)
]

is_backed-append :
    (e : Expense) (es : List Expense) (s : Settlement)
    → is_backed es s ≡ true
    → is_backed (es ++ e ∷ []) s ≡ true
is_backed-append e es s b = elim (Option-cases s.expense_id) [
  | inl unnamed ↦ ground arith
  | inr (x, named) ↦ elim (Option-cases (row x es)) [
    | inl missing ↦ ground arith
    | inr (r, found) ↦ ground (arith, row-append x es e {r = r} found)
  ]
]

-- A write that keeps the terms, or that no payment names, leaves the payments backed.
pub backed-store :
    (e : Expense) (es : List Expense) (ss : List Settlement) {r : Expense}
    → row e.expense_id es ≡ some r
    → (same_terms r e ≡ true) ⊎ (any (λ s. opt_eq s.expense_id (some e.expense_id)) ss ≡ false)
    → all (is_backed es) ss ≡ true
    → all (is_backed (store e es)) ss ≡ true
backed-store e es [] h k b = refl
backed-store e es (s ∷ ss) {r} h k b =
    ground (arith, is_backed-store e es s {r = r} h, backed-store e es ss {r = r} h)

pub backed-append :
    (e : Expense) (es : List Expense) (ss : List Settlement)
    → all (is_backed es) ss ≡ true
    → all (is_backed (es ++ e ∷ [])) ss ≡ true
backed-append e es [] b = refl
backed-append e es (s ∷ ss) b = ground (arith, is_backed-append e es s, backed-append e es ss)
