-- ===== src/Expenses/Invariant/Include.antt =====
-- Bringing a late member into costs keeps the database sound.
use flight_pricing.Base.{
  ℕ, ◌+◌, ◌≡◌, ◌≢◌, refl, ap, ◌∙◌, subst, true, false, not, ◌&&◌, some, List, [], ◌∷◌, map, ◌==◌,
  if◌then◌else◌, All, All-mono, All-filter_test, distinct, member, filter, arith, inl, inr,
  Bool-cases, distinct-dedup, length, leb,
}
use flight_pricing.Base.Sort.{sort_by, sort_ids, All-sort_by, distinct-sort_ids, length-sort_by}
use flight_pricing.Base.Result.{ok, raise_if, >>=-eq-ok, not_a_member}
use flight_pricing.Models.{Db}
use flight_pricing.Models.Money.{Expense}
use flight_pricing.Expenses.Split.{total, users_of, split_evenly, split_evenly_exact}
use flight_pricing.Expenses.Service.{row, store, live, member_ids}
use flight_pricing.Expenses.Include.{
  by_date, is_candidate, pick, includable, resplit, include_member,
}
use flight_pricing.Expenses.Invariant.{IsSound, Adds, ids}
use flight_pricing.Expenses.Invariant.Tables.{row-store, same_terms}
use flight_pricing.Expenses.Invariant.Costs.{stored-IsSound}

-- The table holds a row for the cost, with the terms that the cost shows, and the cost is live.
abbrev Held : List Expense → Expense → Type 0
Held table e = (r : Expense) × (row e.expense_id table ≡ some r) × (same_terms r e ≡ true)

Held-store :
    (table : List Expense) (e' e : Expense) → Held table e' → Held table e → Held (store e' table) e
Held-store table e' e (r', found', terms') (r, found, terms) =
    elim (Bool-cases (e'.expense_id == e.expense_id)) [
      | inl same ↦ (e', row-store e.expense_id e' table {r = r'} found' ∙ rw same, ground arith)
      | inr other ↦ (r, row-store e.expense_id e' table {r = r'} found' ∙ rw other found, terms)
    ]

abbrev IsKeyed : List Expense → Expense → Type 0
IsKeyed table e = row e.expense_id table ≡ some e

other_key :
    (h : Expense) (es : List Expense)
    → member h.expense_id (ids es) ≡ false
    → All (λ e. (h.expense_id == e.expense_id) ≡ false) es
other_key h [] n = tt
other_key h (e ∷ es) n = (ground arith, other_key h es (ground arith))

All-× {ℓ} :
    {A : Type ℓ} (P Q : A → Type 0) (xs : List A) → All P xs → All Q xs → All (λ x. P x × Q x) xs
All-× P Q [] h k = tt
All-× P Q (x ∷ xs) h k = ((h.0, k.0), All-× P Q xs h.1 k.1)

All-IsKeyed : (es : List Expense) → distinct (ids es) ≡ true → All (IsKeyed es) es
All-IsKeyed [] d = tt
All-IsKeyed (h ∷ es) d =
    let rest = All-IsKeyed es (ground arith) in
    let apart = other_key h es (ground arith) in
    (
      ground arith,
      All-mono (λ e. IsKeyed es e × ((h.expense_id == e.expense_id) ≡ false)) (IsKeyed (h ∷ es)) es
          (λ e k. rw k.1 k.0) (All-× (IsKeyed es) _ es rest apart),
    )

pub live-Held : (db : Db) (trip_id : ℕ) → IsSound db → All (Held db.expenses) (live db trip_id)
live-Held db trip_id v =
    let alive = λ (e : Expense). e.trip_id == trip_id && not e.deleted in
    All-mono (λ e. IsKeyed db.expenses e × (alive e ≡ true)) (Held db.expenses) (live db trip_id)
      (λ e k. (e, k.0, ground (arith, k.1)))
      (All-filter_test (IsKeyed db.expenses) alive db.expenses (All-IsKeyed db.expenses v.keyed))

pub All-pick :
    (P : Expense → Type 0) (db : Db) (trip_id : ℕ) (others : List ℕ) (es : List Expense)
    {out : List Expense}
    → pick db trip_id others es ≡ ok out
    → All P es
    → All P out
unfolding pick
All-pick P db trip_id others [] {out} h p = let e : [] ≡ out = cc in rw (← e) tt
All-pick P db trip_id others (e ∷ es) {out} h p =
    let (wanted, _, h₀) = >>=-eq-ok (is_candidate db trip_id others e) _ h in
    let (rest, ran, h₁) = >>=-eq-ok (pick db trip_id others es) _ h₀ in
    let made : (if wanted then e ∷ rest else rest) ≡ out = cc in
    let more = All-pick P db trip_id others es {out = rest} ran p.1 in
    subst (All P) made (elim wanted as (λ b. All P (if b then e ∷ rest else rest)) [
      | true ↦ (p.0, more)
      | false ↦ more
    ])

pub resplit-IsSound :
    (db : Db) (people chosen : List ℕ) (es : List Expense) (n : ℕ) {r : List Expense × ℕ}
    → distinct people ≡ true
    → people ≢ []
    → IsSound db
    → All (Held db.expenses) es
    → resplit people chosen es db.expenses n ≡ ok r
    → IsSound (record db { expenses = r.0 })
unfolding resplit
resplit-IsSound db people chosen [] n {r} d ne v p h =
    let same : db.expenses ≡ r.0 = cc in rw (← same) v
resplit-IsSound db people chosen (e ∷ es) n {r} d ne v p h =
    elim (Bool-cases (member e.expense_id chosen)) [
      | inr skipped ↦
          resplit-IsSound db people chosen es n {r = r} d ne v p.1 (rw (skipped, resplit) at h)
      | inl taken ↦
          let (amounts, ran, h₁) =
            >>=-eq-ok (split_evenly e.amount_cents people) _ (rw (taken, resplit) at h) in
          let (even, run, sums, users, _) = split_evenly_exact e.amount_cents people d ne in
          let same : even ≡ amounts = cc in
          let e' : Expense = record e { shares = amounts } in
          let (r₀, found, terms) = p.0 in
          let a : Adds e' =
            subst (λ t. (total t ≡ e.amount_cents) × (distinct (users_of t) ≡ true)) same
              (sums, ap distinct users ∙ d) in
          let v' = stored-IsSound db e' {r = r₀} v found a (inl terms) in
          let held =
            All-mono (Held db.expenses) (Held (store e' db.expenses)) es
              (λ e₂ k. Held-store db.expenses e' e₂ (r₀, found, terms) k) p.1 in
          resplit-IsSound (record db { expenses = store e' db.expenses }) people chosen es (n + 1)
            {r = r} d ne v' held h₁
    ]

member-filter_self : (u : ℕ) (us : List ℕ) → member u (filter (λ v. not (v == u)) us) ≡ false
member-filter_self u [] = refl
member-filter_self u (v ∷ us) = ground (arith, member-filter_self u us)

member-filter :
    (u v : ℕ) (us : List ℕ) → member v us ≡ false → member v (filter (λ w. not (w == u)) us) ≡ false
member-filter u v [] h = refl
member-filter u v (w ∷ us) h = ground (arith, member-filter u v us)

distinct-filter :
    (u : ℕ) (us : List ℕ) → distinct us ≡ true → distinct (filter (λ v. not (v == u)) us) ≡ true
distinct-filter u [] h = refl
distinct-filter u (v ∷ us) h = ground (arith, distinct-filter u us, member-filter u v us)

-- The people of a re-split: everybody else, and the new member, once each.
pub distinct-people :
    (u : ℕ) (members : List ℕ)
    → distinct members ≡ true
    → distinct (sort_ids (u ∷ filter (λ v. not (v == u)) members)) ≡ true
distinct-people u members h =
    distinct-sort_ids (u ∷ filter (λ v. not (v == u)) members)
    ∙ ground (arith, member-filter_self u members, distinct-filter u members h)

sort_ids-ne-nil : (u : ℕ) (us : List ℕ) → sort_ids (u ∷ us) ≢ []
sort_ids-ne-nil u us = λ e. absurd (omega (arith, ap length e, length-sort_by leb (u ∷ us)))

-- What `_includable` returns: rows that the table holds, and the other members.
includable-ok :
    (db : Db) (trip_id u : ℕ) {found : List Expense × List ℕ}
    → IsSound db
    → includable db trip_id u ≡ ok found
    → (found.1 ≡ filter (λ v. not (v == u)) (member_ids db trip_id))
      × All (Held db.expenses) found.0
unfolding includable
includable-ok db trip_id u {found} v h =
    let members = member_ids db trip_id in
    let others = filter (λ w. not (w == u)) members in
    let (_, _, h₀) = >>=-eq-ok (raise_if (not (member u members)) not_a_member) _ h in
    let sorted = sort_by by_date (live db trip_id) in
    let (out, ran, h₁) = >>=-eq-ok (pick db trip_id others sorted) _ h₀ in
    let made : (out, others) ≡ found = cc in
    let held = All-sort_by (Held db.expenses) by_date (live db trip_id) (live-Held db trip_id v) in
    subst (λ (f : List Expense × List ℕ). (f.1 ≡ others) × All (Held db.expenses) f.0) made
      (refl, All-pick (Held db.expenses) db trip_id others sorted {out = out} ran held)

distinct-member_ids : (db : Db) (trip_id : ℕ) → distinct (member_ids db trip_id) ≡ true
distinct-member_ids db trip_id =
    distinct-dedup (map (λ r. r.user_id) (filter (λ r. r.trip_id == trip_id) db.user_trips))

pub include_member-IsSound :
    (db : Db) (trip_id u : ℕ) (chosen : List ℕ) {r : Db × ℕ}
    → IsSound db
    → include_member db trip_id u chosen ≡ ok r
    → IsSound r.0
unfolding include_member
include_member-IsSound db trip_id u chosen {r} v h =
    let members = member_ids db trip_id in
    let (found, got, h₀) = >>=-eq-ok (includable db trip_id u) _ h in
    let (others, held) = includable-ok db trip_id u {found = found} v got in
    let people = sort_ids (u ∷ found.1) in
    let (done, ran, h₁) = >>=-eq-ok (resplit people chosen found.0 db.expenses 0) _ h₀ in
    let once : distinct people ≡ true =
      rw others (distinct-people u members (distinct-member_ids db trip_id)) in
    let made : record db { expenses = done.0 } ≡ r.0 = cc in
    subst IsSound made (
      resplit-IsSound db people chosen found.0 0 {r = done} once (sort_ids-ne-nil u found.1) v held
        ran)
