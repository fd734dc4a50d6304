-- ===== src/Drafting/Sent.antt =====
-- The days that are sent of a kept plan pass the checks of `replace_days`.
use flight_pricing.Base.{
  ℕ, zero, suc, ◌+◌, ◌<◌, ◌≡◌, refl, ap, ◌∙◌, subst, Bool, true, false, not, List, [], ◌∷◌, ◌++◌,
  ltb, length, All, any, all, member, distinct, arith, inl, inr, Bool-cases,
}
use flight_pricing.Base.Result.{ok}
use flight_pricing.Models.{Db}
use flight_pricing.Models.People.{Trip}
use flight_pricing.Planning.Calendar.{day_count}
use flight_pricing.Planning.Itinerary.{
  ItemIn, DayIn, unsent, check_items, check_days, check_day, block_ids, places_of, place_ids,
  named_cities, is_listed, day_indices,
}
use flight_pricing.Drafting.Reply.{Chosen, Plan, Candidate, window}
use flight_pricing.Drafting.Kept.{IsFitDay, plan_days}
use flight_pricing.Drafting.Task.{range_from, day_in, days_in, max_stops}
use flight_pricing.Drafting.Items.{AreGood, items_of-AreGood, check_items-inside}

-- The days sent of a plan, with block ids from `fresh` on, and off the filled days.
pub record AreSent (db : Db) (trip_id : ℕ) (trip : Trip) (filled : List ℕ) (fresh : ℕ) (plan : Plan)
    (ds : List DayIn) : Type 0 where
  pub checked : check_days trip ds ≡ ok tt
  pub total : ℕ
  pub counted : block_ids ds ≡ range_from fresh total
  pub listed : any (λ p. not (is_listed db trip_id p)) (place_ids ds) ≡ false
  pub no_city : named_cities ds ≡ []
  pub days_once : distinct (day_indices ds) ≡ true
  pub off : all (λ d. not (member d filled)) (day_indices ds) ≡ true
  pub of_plan : (d : ℕ) → member d (plan_days plan) ≡ false → member d (day_indices ds) ≡ false

range_from-append : (a n m : ℕ) → range_from a n ++ range_from (a + n) m ≡ range_from a (n + m)
range_from-append a zero m =
    ap (λ b. range_from b m) (omega arith) ∙ ap (range_from a) (omega arith)
range_from-append a (suc n) m =
    let shift : a + suc n ≡ a + 1 + n = omega arith in
    let size : suc n + m ≡ suc (n + m) = omega arith in
    rw (shift, size) (ap (λ xs. a ∷ xs) (range_from-append (a + 1) n m))

any-append :
    (p : ℕ → Bool) (xs ys : List ℕ) → any p xs ≡ false → any p ys ≡ false → any p (xs ++ ys) ≡ false
any-append p [] ys h k = k
any-append p (x ∷ xs) ys h k = ground (arith, h, any-append p xs ys)

check_days-cons :
    (trip : Trip) (d : DayIn) (ds : List DayIn)
    → d.day_index < day_count trip
    → check_items trip d.day_index d.items ≡ ok tt
    → check_days trip ds ≡ ok tt
    → check_days trip (d ∷ ds) ≡ ok tt
unfolding check_days check_day
check_days-cons trip d ds h items rest = rw (check_days, items) (ground (arith, h, rest))

day_in-AreSent :
    (db : Db) (trip_id : ℕ) (trip : Trip) (filled : List ℕ) (fresh day : ℕ) (picks : List Chosen)
    (plan : Plan) (is : List ItemIn) (more : List DayIn)
    → day < day_count trip
    → member day filled ≡ false
    → member day (plan_days plan) ≡ false
    → AreGood db trip_id fresh (window trip day) is
    → AreSent db trip_id trip filled (fresh + length is) plan more
    → AreSent db trip_id trip filled fresh ((day, picks) ∷ plan) (day_in day is more)
day_in-AreSent db trip_id trip filled fresh day picks plan [] more h free new good v = record {
  checked = v.checked;
  total = v.total;
  counted = subst (λ b. block_ids more ≡ range_from b v.total) (omega arith) v.counted;
  listed = v.listed;
  no_city = v.no_city;
  days_once = v.days_once;
  off = v.off;
  of_plan = λ d k. v.of_plan d (ground (arith, k));
}
day_in-AreSent db trip_id trip filled fresh day picks plan (i ∷ is) more h free new good v =
    let items = i ∷ is in
    let d : DayIn = record { day_index = day; city_id = unsent; items = items } in
    record {
      checked =
          check_days-cons trip d more h (check_items-inside trip day items h good.inside) v.checked;
      total = length items + v.total;
      counted =
          ap (λ bs. bs ++ block_ids more) good.counted
          ∙ ap (λ bs. range_from fresh (length items) ++ bs) v.counted
          ∙ range_from-append fresh (length items) v.total;
      listed =
          any-append (λ p. not (is_listed db trip_id p)) (places_of items) (place_ids more)
            good.listed v.listed;
      no_city = v.no_city;
      days_once = ground (arith, v.of_plan day new, v.days_once);
      off = ground (arith, free, v.off);
      of_plan = λ d k. ground (arith, k, v.of_plan d);
    }

pub days_in-AreSent :
    (db : Db) (trip_id : ℕ) (trip : Trip) (n : ℕ) (open_days : List ℕ) (shut : List (ℕ × ℕ))
    (places : List Candidate) (taken filled : List ℕ) (plan : Plan) (fresh : ℕ)
    → All (λ q. is_listed db trip_id q.place_id ≡ true) places
    → ((d : ℕ) → member d open_days ≡ true → d < day_count trip)
    → All (IsFitDay trip n open_days shut) plan
    → distinct (plan_days plan) ≡ true
    → (ds : List DayIn) × (days_in places taken filled fresh plan ≡ ok ds)
      × AreSent db trip_id trip filled fresh plan ds
unfolding days_in check_days
days_in-AreSent db trip_id trip n open_days shut places taken filled [] fresh h o v once = (
  [],
  refl,
  record {
    checked = refl;
    total = 0;
    counted = refl;
    listed = refl;
    no_city = refl;
    days_once = refl;
    off = refl;
    of_plan = λ d k. refl;
  },
)
days_in-AreSent db trip_id trip n open_days shut places taken filled ((day, picks) ∷ plan) fresh h o
      v once =
    elim (Bool-cases (member day filled)) [
      | inl full ↦
          let (ds, made, sent) =
            days_in-AreSent db trip_id trip n open_days shut places taken filled plan fresh h o v.1
              (ground (arith, once)) in
          (
            ds,
            rw (days_in, full) made,
            record {
              checked = sent.checked;
              total = sent.total;
              counted = sent.counted;
              listed = sent.listed;
              no_city = sent.no_city;
              days_once = sent.days_once;
              off = sent.off;
              of_plan = λ d k. sent.of_plan d (ground (arith, k));
            },
          )
      | inr free ↦
          let (is, valid, good, few) =
            items_of-AreGood db trip_id n day trip shut places taken fresh picks h v.0.fits in
          let (ds, made, sent) =
            days_in-AreSent db trip_id trip n open_days shut places taken filled plan
              (fresh + length is) h o v.1 (ground (arith, once)) in
          let room : ltb max_stops (length is) ≡ false = ground (arith, few, v.0.at_most) in
          (
            day_in day is ds,
            rw (days_in, free, valid, room, made) refl,
            day_in-AreSent db trip_id trip filled fresh day picks plan is ds (o day v.0.is_open)
                free (ground (arith, once)) good sent,
          )
    ]
