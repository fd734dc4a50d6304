-- ===== src/Drafting/Written.antt =====
-- A kept plan is written: `replace_days` takes what `draft` sends, and nothing that was there is lost.
use flight_pricing.Base.{
  ℕ, zero, suc, ◌+◌, ◌≤◌, ◌<◌, ◌≡◌, refl, sym, ap, ◌∙◌, subst, Bool, true, false, not, ◌&&◌, ◌||◌,
  none, some, List, [], ◌∷◌, ◌++◌, leb, ◌==◌, length, map, All, All-filter, All-mono, all, filter,
  member, distinct, arith, ==_iff, inl, inr, ◌⊎◌, Bool-cases,
}
use flight_pricing.Base.Result.{Result, ok}
use flight_pricing.Base.Sort.{insert_by, sort_by, All-sort_by}
use flight_pricing.Models.{Db}
use flight_pricing.Models.People.{Trip}
use flight_pricing.Models.Itinerary.{ItineraryItem}
use flight_pricing.Planning.Calendar.{day_count}
use flight_pricing.Planning.Ranking.{page_of}
use flight_pricing.Planning.Ranked.{IsShown, All-map, page_of-IsRanked}
use flight_pricing.Planning.Reading.{filled_days}
use flight_pricing.Planning.Itinerary.{
  DayIn, trip_row, get_trip, is_listed, day_indices, block_ids, replaced, new_rows, replace_days,
}
use flight_pricing.Planning.Itinerary.Fitting.{is_on, new_rows-on, all-member}
use flight_pricing.Drafting.Reply.{Chosen, Plan, Candidate, off_city}
use flight_pricing.Drafting.Judged.{Problems}
use flight_pricing.Drafting.Kept.{IsFitDay, IsKept, plan_days}
use flight_pricing.Drafting.Rounds.{propose}
use flight_pricing.Drafting.Proposed.{Answers, propose-IsBest, propose-ok}
use flight_pricing.Drafting.Task.{
  Drafted, skipped, no_trip, all_days_filled, no_places, drafted_of, range_from, open_days, planned,
  by_day, day_city, send_days, write_days, Around, candidates, candidate_of, no_filter, limit_of,
  asked, draft_trip, draft_live, draft,
}
use flight_pricing.Drafting.Left.{survives-all}
use flight_pricing.Drafting.Sent.{AreSent, days_in-AreSent}

member-range_from : (d a n : ℕ) → member d (range_from a n) ≡ true → (a ≤ d) × (d < a + n)
member-range_from d a zero h = cc
member-range_from d a (suc n) h = ground (arith, h, member-range_from d (a + 1) n)

distinct-range_from : (a n : ℕ) → distinct (range_from a n) ≡ true
distinct-range_from a zero = refl
distinct-range_from a (suc n) =
    ground (arith, member-range_from a (a + 1) n, distinct-range_from (a + 1) n)

member-filter :
    (d : ℕ) (p : ℕ → Bool) (xs : List ℕ) → member d (filter p xs) ≡ true → member d xs ≡ true
member-filter d p [] h = cc
member-filter d p (x ∷ xs) h = ground (arith, h, member-filter d p xs)

open_days-of_trip :
    (trip : Trip) (filled : List ℕ) (d : ℕ)
    → member d (open_days trip filled) ≡ true
    → d < day_count trip
open_days-of_trip trip filled d h =
    let listed = member-filter d (λ i. not (member i filled)) (range_from 0 (day_count trip)) h in
    omega (arith, member-range_from d 0 (day_count trip) listed)

-- Sorting a plan by day keeps its days.
member-insert_day :
    (d : ℕ) (p : ℕ × List Chosen) (ps : Plan)
    → member d (plan_days (insert_by by_day p ps)) ≡ (d == p.0 || member d (plan_days ps))
member-insert_day d p [] = refl
member-insert_day d p (q ∷ ps) = ground (arith, member-insert_day d p ps)

distinct-insert_day :
    (p : ℕ × List Chosen) (ps : Plan)
    → distinct (plan_days (insert_by by_day p ps))
      ≡ (not (member p.0 (plan_days ps)) && distinct (plan_days ps))
distinct-insert_day p [] = refl
distinct-insert_day p (q ∷ ps) =
    ground (arith, distinct-insert_day p ps, member-insert_day q.0 p ps)

member-sort_days :
    (d : ℕ) (ps : Plan) → member d (plan_days (sort_by by_day ps)) ≡ member d (plan_days ps)
member-sort_days d [] = refl
member-sort_days d (p ∷ ps) =
    ground (arith, member-insert_day d p (sort_by by_day ps), member-sort_days d ps)

distinct-sort_days :
    (ps : Plan) → distinct (plan_days (sort_by by_day ps)) ≡ distinct (plan_days ps)
distinct-sort_days [] = refl
distinct-sort_days (p ∷ ps) = ground (
  arith,
  distinct-insert_day p (sort_by by_day ps),
  member-sort_days p.0 ps,
  distinct-sort_days ps,
)

-- What a draft writes: all that was there stays, and the new rows are the trip's, on days that no block
-- of it reached.
pub record IsExtended (trip_id : ℕ) (before after : Db) : Type 0 where
  pub added : List ItineraryItem
  pub kept : after.items ≡ before.items ++ added
  pub on_empty_days :
      all (λ r. r.trip_id == trip_id && not (member r.day_index (filled_days before trip_id))) added
      ≡ true

replace_days-sent :
    (db : Db) (trip_id : ℕ) (trip : Trip) (fresh id : ℕ) (plan : Plan) (ds : List DayIn)
    → trip_row trip_id db.trips ≡ some trip
    → AreSent db trip_id trip (filled_days db trip_id) fresh plan ds
    → replace_days db trip_id ds id ≡ ok (replaced db trip_id ds id)
unfolding replace_days get_trip
replace_days-sent db trip_id trip fresh id plan ds found v =
    let once : distinct (block_ids ds) ≡ true = rw v.counted (distinct-range_from fresh v.total) in
    rw (replace_days, get_trip, found, v.days_once, v.checked, once, v.no_city, v.listed) refl

off-member :
    (d : ℕ) (filled days : List ℕ)
    → all (λ x. not (member x filled)) days ≡ true
    → member d days ≡ true
    → member d filled ≡ false
off-member d filled [] h k = cc
off-member d filled (x ∷ days) h k = elim (Bool-cases (d == x)) [
  | inl same ↦ subst (λ e. member e filled ≡ false) (sym ((==_iff d x).0 same)) (ground (arith, h))
  | inr other ↦ off-member d filled days (ground (arith, h)) (ground (arith, k, other))
]

new_rows-empty :
    (trip_id : ℕ) (filled : List ℕ) (days : List ℕ) (rs : List ItineraryItem)
    → all (λ d. not (member d filled)) days ≡ true
    → all (is_on trip_id days) rs ≡ true
    → all (λ r. r.trip_id == trip_id && not (member r.day_index filled)) rs ≡ true
new_rows-empty trip_id filled days [] h k = refl
new_rows-empty trip_id filled days (r ∷ rs) h k =
    let rest = new_rows-empty trip_id filled days rs h (ground (arith, k)) in
    let free = off-member r.day_index filled days h (ground (arith, k)) in
    ground (arith, k, rest, free)

append-nil : (xs : List ItineraryItem) → xs ++ [] ≡ xs
append-nil [] = refl
append-nil (x ∷ xs) = ap (λ ys. x ∷ ys) (append-nil xs)

replaced-IsExtended :
    (db : Db) (trip_id : ℕ) (trip : Trip) (fresh id : ℕ) (plan : Plan) (ds : List DayIn)
    → All (λ r. r.block_id < fresh) db.items
    → AreSent db trip_id trip (filled_days db trip_id) fresh plan ds
    → IsExtended trip_id db (replaced db trip_id ds id)
unfolding filled_days
replaced-IsExtended db trip_id trip fresh id plan ds old v = record {
  added = new_rows trip_id ds id;
  kept =
      ap (λ rs. rs ++ new_rows trip_id ds id)
        (survives-all trip_id fresh v.total ds db.items old v.counted v.off);
  on_empty_days =
      new_rows-empty trip_id (filled_days db trip_id) (day_indices ds) (new_rows trip_id ds id)
        v.off (new_rows-on trip_id id (day_indices ds) ds (all-member (day_indices ds)));
}

send_days-IsExtended :
    (db : Db) (trip : Trip) (filled : List ℕ) (done : Plan × ℕ × Problems) (fresh id : ℕ)
    (plan : Plan) (ds : List DayIn)
    → trip_row trip.trip_id db.trips ≡ some trip
    → All (λ r. r.block_id < fresh) db.items
    → AreSent db trip.trip_id trip (filled_days db trip.trip_id) fresh plan ds
    → (after : Db × Drafted) × (send_days db trip.trip_id filled done id ds ≡ ok after)
      × IsExtended trip.trip_id db after.0
unfolding send_days
send_days-IsExtended db trip filled done fresh id plan [] found old v =
    (_, refl, record { added = []; kept = sym (append-nil db.items); on_empty_days = refl })
send_days-IsExtended db trip filled done fresh id plan (d ∷ ds) found old v =
    let written = replace_days-sent db trip.trip_id trip fresh id plan (d ∷ ds) found v in
    (
      (replaced db trip.trip_id (d ∷ ds) id, drafted_of db trip.trip_id filled done (d ∷ ds)),
      rw (send_days, written) refl,
      replaced-IsExtended db trip.trip_id trip fresh id plan (d ∷ ds) old v,
    )

write_days-IsExtended :
    (db : Db) (trip : Trip) (filled : List ℕ) (places : List Candidate) (n : ℕ) (opened : List ℕ)
    (shut : List (ℕ × ℕ)) (done : Plan × ℕ × Problems) (fresh id : ℕ)
    → trip_row trip.trip_id db.trips ≡ some trip
    → All (λ q. is_listed db trip.trip_id q.place_id ≡ true) places
    → All (λ r. r.block_id < fresh) db.items
    → ((d : ℕ) → member d opened ≡ true → d < day_count trip)
    → IsKept trip n opened shut done.0
    → (after : Db × Drafted) × (write_days db trip.trip_id filled places done fresh id ≡ ok after)
      × IsExtended trip.trip_id db after.0
unfolding write_days
write_days-IsExtended db trip filled places n opened shut done fresh id found listed old inside
      kept =
    let trip_id = trip.trip_id in
    let plan = sort_by by_day done.0 in
    let once : distinct (plan_days plan) ≡ true = distinct-sort_days done.0 ∙ kept.each_day_once in
    let (ds, made, sent) =
      days_in-AreSent db trip_id trip n opened shut places (planned db trip_id)
        (filled_days db trip_id) plan fresh listed inside
        (All-sort_by (IsFitDay trip n opened shut) by_day done.0 kept.days) once in
    let (after, written, extended) =
      send_days-IsExtended db trip filled done fresh id plan ds found old sent in
    (after, rw (write_days, made) written, extended)

-- What a draft asks of its surroundings: the model answers, and what others commit meanwhile leaves the
-- trip's row and takes no place off its list; block ids are fresh.
pub record IsSteady (env : Around) (db : Db) (trip : Trip) : Type 0 where
  pub answers : Answers env.ask
  pub same_trip : trip_row trip.trip_id (env.between db).trips ≡ some trip
  pub still_listed :
      (p : ℕ)
      → is_listed db trip.trip_id p ≡ true
      → is_listed (env.between db) trip.trip_id p ≡ true
  pub fresh_ids : All (λ r. r.block_id < env.fresh) (env.between db).items

-- Either nothing is written, or what is there is extended.
abbrev pub IsDone : Around → Db → Trip → Result (Db × Drafted) → Type 0
IsDone env db trip outcome =
    (after : Db × Drafted) × (outcome ≡ ok after)
    × ((after.0 ≡ db) ⊎ IsExtended trip.trip_id (env.between db) after.0)

draft_trip-eq :
    (env : Around) (db : Db) (trip : Trip) {done : Plan × ℕ × Problems}
    → leb (length (asked env db trip).open_days) 0 ≡ false
    → leb (length (asked env db trip).places) 0 ≡ false
    → propose (asked env db trip) (day_city db trip.trip_id) env.ask ≡ ok done
    → draft_trip env db trip
      ≡ write_days
          (env.between db)
          trip.trip_id
          (filled_days db trip.trip_id)
          (candidates env db trip)
          done
          env.fresh
          env.id
unfolding draft_trip
draft_trip-eq env db trip some_open some_places proposed =
    rw (draft_trip, some_open, some_places, proposed) refl

-- The candidates are on the trip's list.
candidates-listed :
    (env : Around) (db : Db) (trip : Trip)
    → All (λ q. is_listed db trip.trip_id q.place_id ≡ true) (candidates env db trip)
candidates-listed env db trip =
    let page = page_of env.reading db trip no_filter none (limit_of db trip) 0 in
    let shown = (page_of-IsRanked env.reading db trip no_filter none (limit_of db trip) 0).0 in
    All-filter (λ q. is_listed db trip.trip_id q.place_id ≡ true) (λ q. not q.in_itinerary)
      (map candidate_of page)
      (All-map candidate_of (λ q. is_listed db trip.trip_id q.place_id ≡ true) page
        (All-mono (λ r. IsShown db trip.trip_id r.place_id)
          (λ r. is_listed db trip.trip_id r.place_id ≡ true) page (λ r h. h.0) shown))

draft_trip-IsExtended :
    (env : Around) (db : Db) (trip : Trip)
    → IsSteady env db trip
    → IsDone env db trip (draft_trip env db trip)
unfolding draft_trip
draft_trip-IsExtended env db trip v =
    let a = asked env db trip in
    let named = day_city db trip.trip_id in
    let filled = filled_days db trip.trip_id in
    elim (Bool-cases (leb (length a.open_days) 0)) [
      | inl full ↦ ((db, skipped all_days_filled), rw (draft_trip, full) refl, inl refl)
      | inr some_open ↦ elim (Bool-cases (leb (length a.places) 0)) [
        | inl bare ↦ ((db, skipped no_places), rw (draft_trip, some_open, bare) refl, inl refl)
        | inr some_places ↦
            let (done, proposed) = propose-ok a named env.ask v.answers in
            let best = propose-IsBest a named env.ask proposed in
            let (after, written, extended) =
              write_days-IsExtended (env.between db) trip filled a.places (length a.places)
                a.open_days (off_city a.places a.open_days named) done env.fresh env.id v.same_trip
                (All-mono (λ q. is_listed db trip.trip_id q.place_id ≡ true)
                  (λ q. is_listed (env.between db) trip.trip_id q.place_id ≡ true) a.places
                  (λ q. v.still_listed q.place_id) (candidates-listed env db trip))
                v.fresh_ids (open_days-of_trip trip filled) best.drafted.kept in
            (
              after,
              draft_trip-eq env db trip some_open some_places proposed ∙ written,
              inr extended,
            )
      ]
    ]

draft_live-IsExtended :
    (deleted : Bool) (env : Around) (db : Db) (trip : Trip)
    → IsSteady env db trip
    → IsDone env db trip (draft_live deleted env db trip)
unfolding draft_live
draft_live-IsExtended true env db trip v = ((db, skipped no_trip), refl, inl refl)
draft_live-IsExtended false env db trip v = draft_trip-IsExtended env db trip v

-- Of a trip that is there, in surroundings that are steady, the task always ends without an error,
-- whatever the model replies: it skips the trip and writes nothing, or `replace_days` takes the days it
-- sends, every block that the trip and all others have by then stays, and the new blocks stand on days
-- that no block of the trip reached.
pub draft-IsExtended :
    (env : Around) (db : Db) (trip : Trip)
    → trip_row trip.trip_id db.trips ≡ some trip
    → IsSteady env db trip
    → IsDone env db trip (draft env db trip.trip_id)
unfolding draft
draft-IsExtended env db trip found v =
    rw (draft, found) (draft_live-IsExtended trip.deleted env db trip v)
