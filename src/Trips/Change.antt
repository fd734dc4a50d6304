-- ===== src/Trips/Change.antt =====
-- tp_backend/tp_api/main.py: a trip renamed, deleted, and queued for a draft; and, of
-- tp_backend/libs/ingest/enqueue.py, what a run that ends claims for the trips of its city.
use flight_pricing.Base.{
  ℕ, Bool, true, false, not, ◌&&◌, ◌||◌, Option, none, some, List, [], ◌∷◌, map, leb, ◌==◌,
  if◌then◌else◌, find, filter, dedup, length, first,
}
use flight_pricing.Base.Result.{
  Result, ok, raise_if, ◌>>=◌, ◌>>◌, no_such_trip, all_days_taken, invalid_body,
}
use flight_pricing.Base.Sort.{sort_by}
use flight_pricing.Base.Text.{Text}
use flight_pricing.Models.{Db}
use flight_pricing.Models.People.{Trip}
use flight_pricing.Models.Itinerary.{TripCity}
use flight_pricing.Models.Ingest.{
  IngestRun, IngestTask, Tables, TaskKind, route_plan, TaskStatus, pending, running, Payload,
  of_trip,
}
use flight_pricing.Planning.Calendar.{day_count}
use flight_pricing.Planning.Reading.{filled_days}
use flight_pricing.Planning.Itinerary.{get_trip}
use flight_pricing.Planning.Shortlist.{claim_city_places, covers_city}
use flight_pricing.Ingest.Queue.{is_active}
use flight_pricing.Ingest.Enqueue.{is_ingest, ensure_trip_plan}
use flight_pricing.Trips.Create.{is_longer, clean_name}

abbrev pub store_row : Trip → List Trip → List Trip
store_row trip = map (λ t. if t.trip_id == trip.trip_id then trip else t)

-- `rename_trip`, after its gate, with the bound on the body's field.
unfoldable pub rename_trip : Db → ℕ → Option Text → Result Db
rename_trip db trip_id name = do
  raise_if (is_longer 120 name) invalid_body
  trip ← get_trip db trip_id
  ok (record db { trips = store_row (record trip { name = clean_name name }) db.trips })

-- `delete_trip`, after its gate.
unfoldable pub delete_trip : Db → ℕ → Result Db
delete_trip db trip_id = do
  trip ← get_trip db trip_id
  ok (record db { trips = store_row (record trip { deleted = true }) db.trips })

abbrev pub is_plan : TaskKind → Bool
is_plan route_plan = true
is_plan _ = false

abbrev pub is_for : ℕ → Payload → Bool
is_for trip_id (of_trip t) = t == trip_id
is_for trip_id _ = false

abbrev pub is_draft_of : ℕ → IngestTask → Bool
is_draft_of trip_id t = is_plan t.kind && is_for trip_id t.payload

abbrev pub newer : IngestTask → IngestTask → Bool
newer a b = leb b.task_id a.task_id

-- `draft_task`
unfoldable pub draft_task : List IngestTask → ℕ → Option IngestTask
draft_task ts trip_id = first (sort_by newer (filter (is_draft_of trip_id) ts))

abbrev pub is_queued : TaskStatus → Bool
is_queued pending = true
is_queued running = true
is_queued _ = false

-- The last part of `draft_trip`, by the most recent task.
abbrev pub queue_again : Option IngestTask → Tables → Trip → ℕ → ℕ → ℕ → Tables × TaskStatus
queue_again none q trip run_id task_id now =
    (ensure_trip_plan q trip.trip_id trip.city_id run_id task_id now, pending)
queue_again (some t) q trip run_id task_id now =
    if is_queued t.status
    then (q, t.status)
    else (ensure_trip_plan q trip.trip_id trip.city_id run_id task_id now, pending)

-- `draft_trip`, after its gate: the queue, and the status that is answered.
unfoldable pub queue_draft : Db → Tables → ℕ → ℕ → ℕ → ℕ → Result (Tables × TaskStatus)
unfolding draft_task
queue_draft db q trip_id run_id task_id now = do
  trip ← get_trip db trip_id
  raise_if trip.deleted no_such_trip
  raise_if (leb (day_count trip) (length (dedup (filled_days db trip_id)))) all_days_taken
  ok (queue_again (draft_task q.tasks trip_id) q trip run_id task_id now)

-- The cities of a trip that has rows; only their claims are made, in any order.
abbrev pub cities_of : Db → ℕ → ℕ → List ℕ
cities_of db trip_id fallback =
    elim (map (λ (r : TripCity). r.city_id) (filter (λ r. r.trip_id == trip_id) db.trip_cities)) [
      | [] ↦ fallback ∷ []
      | c ∷ cs ↦ c ∷ cs
    ]

abbrev pub claim_cities : Db → ℕ → List ℕ → Db
claim_cities db trip_id [] = db
claim_cities db trip_id (c ∷ cs) = claim_cities (claim_city_places db trip_id c) trip_id cs

abbrev pub claim_trips : Db → ℕ → List ℕ → Db
claim_trips db city_id [] = db
claim_trips db city_id (t ∷ ts) =
    claim_trips (claim_cities db t (cities_of db t city_id)) city_id ts

abbrev pub claim_run : Option IngestRun → Db → Db
claim_run none db = db
claim_run (some r) db = if not (is_ingest r) || is_active r.status then db else elim r.city_id [
  | none ↦ db
  | some c ↦
      claim_trips db c
        (map (λ t. t.trip_id) (filter (λ t. covers_city db c t && not t.deleted) db.trips))
]

-- `claim_after_ingest`
unfoldable pub claim_after_ingest : Db → List IngestRun → ℕ → Db
claim_after_ingest db runs run_id = claim_run (find (λ r. r.run_id == run_id) runs) db
