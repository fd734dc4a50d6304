-- ===== src/Drafting/Kept.antt =====
-- What a kept plan is, whatever the model replied.
use flight_pricing.Base.{
  ℕ, ◌+◌, ◌≤◌, ◌≡◌, refl, sym, subst, true, false, ◌||◌, some, List, [], ◌∷◌, ◌==◌, if◌then◌else◌,
  map, member, distinct, length, take, All, arith, inl, inr, Bool-cases, Option-cases, ==_iff,
}
use flight_pricing.Base.Int.{pos, negsuc}
use flight_pricing.Base.Sort.{sort_by, sum_by-sort_by, All-sort_by, IsSorted, sort_by-IsSorted}
use flight_pricing.Base.Takes.{All-take, length-take, sum_by-take, take-IsSorted}
use flight_pricing.Base.Sums.{sum_by}
use flight_pricing.Models.People.{Trip}
use flight_pricing.Drafting.Reply.{
  Field, missing, null, given, Pick, ReplyDay, Chosen, Plan, cap, window, day_of, pick_all, earlier,
  put, keep_from, keep,
}
use flight_pricing.Drafting.Picked.{IsFit, uses, one_if, pick_all-fits, pick_all-uses}

-- A day of a plan: open, in time order, of at most `cap` picks, each of which fits.
pub record IsFitDay (trip : Trip) (n : ℕ) (open_days : List ℕ) (shut : List (ℕ × ℕ))
    (p : ℕ × List Chosen) : Type 0 where
  pub is_open : member p.0 open_days ≡ true
  pub in_order : IsSorted earlier p.1
  pub at_most : length p.1 ≤ cap
  pub fits : All (IsFit (window trip p.0) n p.0 shut) p.1

abbrev pub plan_uses : ℕ → Plan → ℕ
plan_uses i = sum_by (λ p. uses i p.1)

abbrev pub plan_days : Plan → List ℕ
plan_days = map (λ p. p.0)

pub record IsKept (trip : Trip) (n : ℕ) (open_days : List ℕ) (shut : List (ℕ × ℕ)) (plan : Plan)
    : Type 0 where
  pub days : All (IsFitDay trip n open_days shut) plan
  pub each_day_once : distinct (plan_days plan) ≡ true
  pub each_pick_once : (i : ℕ) → plan_uses i plan ≤ 1

module _ {ℓ κ} {A : Type ℓ} (P : ℕ × A → Type κ) where
  All-put : (day : ℕ) (a : A) (out : List (ℕ × A)) → P (day, a) → All P out → All P (put day a out)
  unfolding put
  All-put day a [] p h = (p, tt)
  All-put day a ((d, old) ∷ out) p h = elim (Bool-cases (d == day)) [
    | inl same ↦ rw (put, same) (subst (λ k. P (k, a)) (sym ((==_iff d day).0 same)) p, h.1)
    | inr other ↦ rw (put, other) (h.0, All-put day a out p h.1)
  ]

member-put :
    (x day : ℕ) (cs : List Chosen) (out : Plan)
    → member x (plan_days (put day cs out)) ≡ (member x (plan_days out) || x == day)
unfolding put
member-put x day cs [] = ground arith
member-put x day cs ((d, old) ∷ out) = ground (arith, member-put x day cs out)

distinct-put :
    (day : ℕ) (cs : List Chosen) (out : Plan)
    → distinct (plan_days out) ≡ true
    → distinct (plan_days (put day cs out)) ≡ true
unfolding put
distinct-put day cs [] h = refl
distinct-put day cs ((d, old) ∷ out) h =
    ground (arith, distinct-put day cs out, member-put d day cs out)

plan_uses-put :
    (i day : ℕ) (cs : List Chosen) (out : Plan)
    → plan_uses i (put day cs out) ≤ uses i cs + plan_uses i out
unfolding put
plan_uses-put i day cs [] = omega arith
plan_uses-put i day cs ((d, old) ∷ out) = elim (Bool-cases (d == day)) [
  | inl same ↦ rw (put, same) (omega arith)
  | inr other ↦ rw (put, other) (omega (arith, plan_uses-put i day cs out))
]

earlier-total : (a b : Chosen) → earlier a b ≡ false → earlier b a ≡ true
earlier-total a b h = ground (arith, h)

day_of-some :
    (f : Field) (open_days : List ℕ) {day : ℕ}
    → day_of f open_days ≡ some day
    → member day open_days ≡ true
day_of-some missing open_days h = cc
day_of-some null open_days h = cc
day_of-some (given (negsuc d)) open_days h = cc
day_of-some (given (pos d)) open_days {day} h =
    let same : d ≡ day = ground (arith, h) in
    subst (λ k. member k open_days ≡ true) same (ground (arith, h))

-- Every index in the plan so far has been seen.
record IsSoFar (trip : Trip) (n : ℕ) (open_days : List ℕ) (shut : List (ℕ × ℕ)) (out : Plan)
    (seen : List ℕ) : Type 0 where
  days : All (IsFitDay trip n open_days shut) out
  each_day_once : distinct (plan_days out) ≡ true
  are_seen : (i : ℕ) → plan_uses i out ≤ one_if (member i seen)

put-IsSoFar :
    (trip : Trip) (n : ℕ) (open_days : List ℕ) (shut : List (ℕ × ℕ)) (out : Plan) (seen : List ℕ)
    (day : ℕ) (its : List Pick)
    → member day open_days ≡ true
    → IsSoFar trip n open_days shut out seen
    → let got = pick_all (window trip day) n day shut seen its in
      IsSoFar trip n open_days shut (put day (take cap (sort_by earlier got.0)) out) got.1
put-IsSoFar trip n open_days shut out seen day its is_open v =
    let w = window trip day in
    let got = pick_all w n day shut seen its in
    let ordered = sort_by earlier got.0 in
    let top = take cap ordered in
    record {
      days =
          All-put (IsFitDay trip n open_days shut) day top out
            (record {
              is_open = is_open;
              in_order =
                  take-IsSorted earlier cap ordered (sort_by-IsSorted earlier earlier-total got.0);
              at_most = length-take cap ordered;
              fits = All-take (IsFit w n day shut) cap ordered (
                  All-sort_by (IsFit w n day shut) earlier got.0
                    (pick_all-fits w n day shut seen its));
            })
            v.days;
      each_day_once = distinct-put day top out v.each_day_once;
      are_seen = λ i.
          let put_uses = plan_uses-put i day top out in
          let taken = sum_by-take (λ c. if c.index == i then 1 else 0) cap ordered in
          let sorted = sum_by-sort_by earlier (λ c. if c.index == i then 1 else 0) got.0 in
          omega
            (arith, put_uses, taken, sorted, pick_all-uses w n day shut seen its i, v.are_seen i);
    }

keep_from-IsKept :
    (trip : Trip) (n : ℕ) (open_days : List ℕ) (shut : List (ℕ × ℕ)) (reply : List ReplyDay)
    (out : Plan) (seen : List ℕ)
    → IsSoFar trip n open_days shut out seen
    → IsKept trip n open_days shut (keep_from trip n open_days shut out seen reply)
unfolding keep_from
keep_from-IsKept trip n open_days shut [] out seen v = record {
  days = v.days;
  each_day_once = v.each_day_once;
  each_pick_once = λ i. ground (arith, v.are_seen i);
}
keep_from-IsKept trip n open_days shut (d ∷ ds) out seen v =
    elim (Option-cases (day_of d.day open_days)) [
      | inl other ↦ rw (keep_from, other) (keep_from-IsKept trip n open_days shut ds out seen v)
      | inr (day, is_open) ↦
          rw (keep_from, is_open)
            (keep_from-IsKept trip n open_days shut ds _ _ (
              put-IsSoFar trip n open_days shut out seen day d.picks
                (day_of-some d.day open_days is_open) v))
    ]

-- Whatever the model replies, what is kept of it is a plan for open days only, each listed once, with at
-- most `cap` picks in time order; each pick is a candidate in range that is not shut on that day, starts
-- and lasts whole slots, and stays inside the day's flight window and waking hours; and no candidate is
-- picked twice in the whole plan.
pub keep-IsKept :
    (trip : Trip) (reply : List ReplyDay) (n : ℕ) (open_days : List ℕ) (shut : List (ℕ × ℕ))
    → IsKept trip n open_days shut (keep trip reply n open_days shut)
unfolding keep
keep-IsKept trip reply n open_days shut =
    keep_from-IsKept trip n open_days shut reply [] []
      (record { days = tt; each_day_once = refl; are_seen = λ i. omega arith })
