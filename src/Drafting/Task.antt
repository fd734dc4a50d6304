-- ===== src/Drafting/Task.antt =====
-- tp_backend/tp_ingestions/plan/draft.py, `draft`: the task that fills a trip's empty days.
use flight_pricing.Base.{
  ℕ, ◌+◌, ◌*◌, ◌&&◌, Bool, true, false, not, Option, none, some, List, [], ◌∷◌, zero, suc, leb, ltb,
  ◌==◌, if◌then◌else◌, map, length, filter, find, member, get_elem?,
}
use flight_pricing.Base.Sums.{sum_by}
use flight_pricing.Base.Result.{Result, ok, raise_if, invalid_body, ◌>>=◌, ◌>>◌}
use flight_pricing.Base.Sort.{sort_by, sort_ids}
use flight_pricing.Base.Text.{Text}
use flight_pricing.Models.{Db}
use flight_pricing.Models.People.{Trip, City}
use flight_pricing.Models.Itinerary.{place, ItineraryItem, TripDay}
use flight_pricing.Planning.Calendar.{day_count}
use flight_pricing.Planning.Reading.{filled_days}
use flight_pricing.Planning.Ranking.{Reading, ShortlistPlace, ShortlistQuery, trip_cities, page_of}
use flight_pricing.Planning.Itinerary.{
  RawItem, ItemIn, DayIn, unsent, trip_row, validate_item, is_some, replace_days,
}
use flight_pricing.Routing.Hours.{Period}
use flight_pricing.Drafting.Reply.{Chosen, Plan, Candidate}
use flight_pricing.Drafting.Judged.{Problems}
use flight_pricing.Drafting.Rounds.{Asked, Model, count, propose}

pub data Skip : Type 0 where
  no_trip all_days_filled no_places : Skip
  nothing_fit : ℕ → Skip

-- The task's result.
pub data Drafted : Type 0 where
  skipped : Skip → Drafted
  drafted : (days blocks rounds unresolved : ℕ) (filled_meanwhile : List ℕ) → Drafted

abbrev pub range_from : ℕ → ℕ → List ℕ
range_from a zero = []
range_from a (suc n) = a ∷ range_from (a + 1) n

abbrev pub open_days : Trip → List ℕ → List ℕ
open_days trip filled = filter (λ i. not (member i filled)) (range_from 0 (day_count trip))

-- `day_cities`, at one of the days.
abbrev pub city_name_of : List City → Option TripDay → Option Text
city_name_of cs none = none
city_name_of cs (some r) = elim (find (λ c. c.city_id == r.city_id) cs) [
  | none ↦ none
  | some c ↦ some c.name
]

unfoldable pub day_city : Db → ℕ → ℕ → Option Text
day_city db trip_id day =
    city_name_of db.cities (find (λ r. r.trip_id == trip_id && r.day_index == day) db.trip_days)

-- The places that the trip's blocks hold.
abbrev pub held : List ItineraryItem → List ℕ
held [] = []
held (r ∷ rs) = elim r.place_id [ none ↦ held rs | some p ↦ p ∷ held rs ]

abbrev pub planned : Db → ℕ → List ℕ
planned db trip_id = held (filter (λ r. r.trip_id == trip_id) db.items)

abbrev pub raw_item : ℕ → Chosen → RawItem
raw_item place_id c = record {
  kind = place;
  place_id = some place_id;
  block_id = none;
  title = none;
  description = none;
  start_min = c.start;
  duration_min = c.duration;
  reference_url = none;
}

-- The place of a pick, unless a block has it by now.
abbrev pub free_place : List Candidate → List ℕ → Chosen → Option ℕ
free_place places taken c = elim (get_elem? places c.index) [
  | none ↦ none
  | some p ↦ if member p.place_id taken then none else some p.place_id
]

-- The items of a day; each that is validated draws the next of the fresh block ids.
unfoldable pub items_of : List Candidate → List ℕ → ℕ → List Chosen → Result (List ItemIn)
items_of places taken fresh [] = ok []
items_of places taken fresh (c ∷ cs) = elim (free_place places taken c) [
  | none ↦ items_of places taken fresh cs
  | some p ↦ do
    i ← validate_item (raw_item p c) fresh
    is ← items_of places taken (fresh + 1) cs
    ok (i ∷ is)
]

-- `MAX_STOPS_PER_DAY`, the bound on a day's items.
abbrev pub max_stops : ℕ
max_stops = 25

-- A day of the body, left out where it has no items.
abbrev pub day_in : ℕ → List ItemIn → List DayIn → List DayIn
day_in day [] rest = rest
day_in day (i ∷ is) rest = record { day_index = day; city_id = unsent; items = i ∷ is } ∷ rest

unfoldable pub days_in : List Candidate → List ℕ → List ℕ → ℕ → Plan → Result (List DayIn)
unfolding items_of
days_in places taken filled fresh [] = ok []
days_in places taken filled fresh ((day, picks) ∷ ps) =
    let rest = days_in places taken filled fresh ps in
    if member day filled then rest else do
      is ← items_of places taken fresh picks
      raise_if (ltb max_stops (length is)) invalid_body
      more ← days_in places taken filled (fresh + length is) ps
      ok (day_in day is more)

abbrev pub by_day : ℕ × List Chosen → ℕ × List Chosen → Bool
by_day a b = leb a.0 b.0

-- `sorted(set(chosen) & (now_filled - filled))`
abbrev pub lost_days : Plan → List ℕ → List ℕ → List ℕ
lost_days chosen filled now_filled =
    sort_ids (filter (λ d. member d now_filled && not (member d filled)) (map (λ p. p.0) chosen))

-- The result of a write of these days.
abbrev pub drafted_of : Db → ℕ → List ℕ → Plan × ℕ × Problems → List DayIn → Drafted
drafted_of db trip_id filled (chosen, r, bad) days =
    drafted (length days) (sum_by (λ d. length d.items) days) r (count bad)
      (lost_days chosen filled (filled_days db trip_id))

-- The write of the days that have items.
unfoldable pub send_days :
    Db → ℕ → List ℕ → Plan × ℕ × Problems → ℕ → List DayIn → Result (Db × Drafted)
send_days db trip_id filled done id [] = ok (db, skipped (nothing_fit done.1))
send_days db trip_id filled done id (d ∷ ds) = do
  db' ← replace_days db trip_id (d ∷ ds) id
  ok (db', drafted_of db trip_id filled done (d ∷ ds))

-- What is written of a plan, in the database that others left meanwhile.
unfoldable pub write_days :
    Db → ℕ → List ℕ → List Candidate → Plan × ℕ × Problems → ℕ → ℕ → Result (Db × Drafted)
unfolding days_in send_days
write_days db trip_id filled places done fresh id = do
  days ← days_in places (planned db trip_id) (filled_days db trip_id) fresh (sort_by by_day done.0)
  send_days db trip_id filled done id days

-- What a draft takes from outside: the table of mentions with the shortlist's comparisons, the hours that a round
-- loads, the model, what others commit while it is asked, and the first fresh block and row ids.
pub record Around : Type 0 where
  pub reading : Reading
  pub hours : ℕ → ℕ → Option (List Period)
  pub ask : Model
  pub between : Db → Db
  pub fresh : ℕ
  pub id : ℕ

-- `LIMIT * len(trip_cities(session, trip))`
abbrev pub limit_of : Db → Trip → ℕ
limit_of db trip = 40 * length (trip_cities db trip)

-- A row of the shortlist, as far as it is read here.
abbrev pub candidate_of : ShortlistPlace → Candidate
candidate_of r = record {
  place_id = r.place_id;
  name = r.name;
  city_name = r.city_name;
  in_itinerary = is_some r.day_index;
}

abbrev pub no_filter : ShortlistQuery
no_filter = record { category = none; source = none; text = none; city_id = none }

abbrev pub candidates : Around → Db → Trip → List Candidate
candidates env db trip =
    filter (λ p. not p.in_itinerary)
      (map candidate_of (page_of env.reading db trip no_filter none (limit_of db trip) 0))

abbrev pub asked : Around → Db → Trip → Asked
asked env db trip = record {
  trip = trip;
  places = candidates env db trip;
  open_days = open_days trip (filled_days db trip.trip_id);
  hours = env.hours;
}

-- The part of `draft` after the trip is found.
unfoldable pub draft_trip : Around → Db → Trip → Result (Db × Drafted)
unfolding write_days day_city propose
draft_trip env db trip =
    let a = asked env db trip in
    if leb (length a.open_days) 0
    then ok (db, skipped all_days_filled)
    else if leb (length a.places) 0
    then ok (db, skipped no_places)
    else do
      done ← propose a (day_city db trip.trip_id) env.ask
      write_days (env.between db) trip.trip_id (filled_days db trip.trip_id) a.places done env.fresh
          env.id

-- `draft`, by the trip's row.
unfoldable pub draft_live : Bool → Around → Db → Trip → Result (Db × Drafted)
draft_live true env db trip = ok (db, skipped no_trip)
draft_live false env db trip = draft_trip env db trip

unfoldable pub draft : Around → Db → ℕ → Result (Db × Drafted)
unfolding draft_live
draft env db trip_id = elim (trip_row trip_id db.trips) [
  | none ↦ ok (db, skipped no_trip)
  | some trip ↦ draft_live trip.deleted env db trip
]
