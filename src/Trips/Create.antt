-- ===== src/Trips/Create.antt =====
-- tp_backend/tp_api/main.py, `create_trip`, with the request's body of tp_backend/tp_api/schemas.py.
use flight_pricing.Base.{
  ℕ, ◌+◌, Bool, false, ◌||◌, Option, none, some, List, [], ◌∷◌, ◌++◌, ltb, leb, ◌==◌, if◌then◌else◌,
  find, member, length,
}
use flight_pricing.Base.Result.{
  Result, ok, err, raise_if, ◌>>◌, invalid_body, not_a_city, lookup_failed,
}
use flight_pricing.Base.Text.{Text, strip}
use flight_pricing.Models.{Db}
use flight_pricing.Models.People.{Time, Trip, City, UserTrip, owner}
use flight_pricing.Models.Ingest.{IngestRun, Tables}
use flight_pricing.Planning.Shortlist.{claim_city_places}
use flight_pricing.Ingest.Enqueue.{CityDetails, ensure_city, ensure_city_ingest}

-- The database as both parts of the program see it.
pub record World : Type 0 where
  pub db : Db
  pub queue : Tables

pub record PlanRequest : Type 0 where
  pub city_place_ids : List ℕ
  pub name : Option Text
  pub arrive_date : ℕ
  pub arrive_time : Option Time
  pub depart_date : ℕ
  pub depart_time : Option Time
  pub extra_details : Option Text

abbrev pub is_longer : ℕ → Option Text → Bool
is_longer n none = false
is_longer n (some t) = ltb n (length t)

-- The bounds on the fields, and `_check_span`.
unfoldable pub validate_plan : ℕ → PlanRequest → Result (Unit {0})
validate_plan today body = do
  raise_if (leb (length body.city_place_ids) 0) invalid_body
  raise_if (is_longer 120 body.name || is_longer 500 body.extra_details) invalid_body
  raise_if (ltb body.depart_date body.arrive_date) invalid_body
  raise_if (ltb (body.arrive_date + 1) today) invalid_body

-- What the lookup of a place answers.
pub data Found : Type 0 where
  other_place no_answer : Found
  city_found : CityDetails → Found

-- The loop over the request's cities, each of which is committed as it is found, so that a later failure
-- leaves it: the ids, in order, an alias counted once.
abbrev pub with_city : World → CityDetails → World
with_city w d =
    let (cities, ingested) = ensure_city w.db.cities w.queue.ingested d in
    record { db = record w.db { cities = cities }; queue = record w.queue { ingested = ingested } }

abbrev pub add_id : ℕ → List ℕ → List ℕ
add_id c ids = if member c ids then ids else ids ++ c ∷ []

unfoldable pub resolve_cities : World → (ℕ → Found) → List ℕ → List ℕ → World × Result (List ℕ)
resolve_cities w lookup ids [] = (w, ok ids)
resolve_cities w lookup ids (p ∷ ps) = elim (lookup p) [
  | other_place ↦ (w, err not_a_city)
  | no_answer ↦ (w, err lookup_failed)
  | city_found d ↦ resolve_cities (with_city w d) lookup (add_id d.place_id ids) ps
]

-- `(body.name or "").strip() or None`
abbrev pub or_none : Text → Option Text
or_none [] = none
or_none (c ∷ t) = some (c ∷ t)

abbrev pub clean_name : Option Text → Option Text
clean_name none = none
clean_name (some t) = or_none (strip t)

abbrev pub new_trip : ℕ → ℕ → PlanRequest → Trip
new_trip trip_id city_id body = record {
  trip_id = trip_id;
  city_id = city_id;
  name = clean_name body.name;
  arrive_date = body.arrive_date;
  arrive_time = body.arrive_time;
  depart_date = body.depart_date;
  depart_time = body.depart_time;
  extra_details = body.extra_details;
  deleted = false;
}

abbrev pub owner_row : ℕ → ℕ → ℕ → UserTrip
owner_row user_id trip_id now = record {
  user_id = user_id;
  trip_id = trip_id;
  role = owner;
  created_at = now;
}

-- The loop over the trip's cities: a row, and the claims of the city's places.
unfoldable pub cover_cities : Db → ℕ → ℕ → List ℕ → Db
cover_cities db trip_id now [] = db
cover_cities db trip_id now (c ∷ cs) =
    let rows = db.trip_cities ++ record { trip_id = trip_id; city_id = c; created_at = now } ∷ [] in
    cover_cities (claim_city_places (record db { trip_cities = rows }) trip_id c) trip_id now cs

-- The writes up to the commit.
unfoldable pub store_trip : Db → ℕ → ℕ → ℕ → PlanRequest → ℕ → List ℕ → Db
unfolding cover_cities
store_trip db user_id trip_id now body anchor cs =
    cover_cities
      (record db {
        trips = db.trips ++ new_trip trip_id anchor body ∷ [];
        user_trips = db.user_trips ++ owner_row user_id trip_id now ∷ [];
      })
      trip_id now (anchor ∷ cs)

-- What a request takes from outside: the setting's span, the ids of the rows that it may insert, by the
-- city's place in the request, and what others commit between a look for a run and its insert, and
-- after an insert that is refused.
pub record Env : Type 0 where
  pub now : ℕ
  pub refresh : ℕ
  pub trip_id : ℕ
  pub run_ids : ℕ → ℕ
  pub task_ids : ℕ → ℕ
  pub between : ℕ → Tables → Tables
  pub after : ℕ → Tables → Tables

abbrev pub add_some : Option IngestRun → List IngestRun → List IngestRun
add_some none rs = rs
add_some (some r) rs = r ∷ rs

-- The runs of the trip's cities, those that are fresh left out.
unfoldable pub ensure_runs : Env → List City → Tables → ℕ → List ℕ → Tables × List IngestRun
ensure_runs env cities q k [] = (q, [])
ensure_runs env cities q k (c ∷ cs) = elim (find (λ r. r.city_id == c) cities) [
  | none ↦ ensure_runs env cities q (k + 1) cs
  | some city ↦
      let (q', run) =
        ensure_city_ingest q (env.between k) (env.after k) city env.refresh (env.run_ids k)
          (env.task_ids k) env.now in
      let (q'', runs) = ensure_runs env cities q' (k + 1) cs in (q'', add_some run runs)
]

-- `create_trip`, of cities that resolved: the trip, and the runs to poll. `seed` is what an upload writes
-- once the trip is stored.
unfoldable pub store_plan :
    Env → (Db → Db) → World → ℕ → PlanRequest → ℕ → List ℕ → World × List IngestRun
unfolding store_trip ensure_runs
store_plan env seed w user_id body anchor cs =
    let db = seed (store_trip w.db user_id env.trip_id env.now body anchor cs) in
    let (queue, runs) = ensure_runs env db.cities w.queue 0 (anchor ∷ cs) in
    (record { db = db; queue = queue }, runs)

abbrev pub store_resolved :
    Env → (Db → Db) → ℕ → PlanRequest → World × Result (List ℕ) → World × Result (List IngestRun)
store_resolved env seed user_id body (w, err problem) = (w, err problem)
store_resolved env seed user_id body (w, ok []) = (w, err invalid_body)
store_resolved env seed user_id body (w, ok (c ∷ cs)) =
    let (w', runs) = store_plan env seed w user_id body c cs in (w', ok runs)

-- `initiate_plan`, with the request's validators.
unfoldable pub create_trip :
    Env → (ℕ → Found) → (Db → Db) → World → ℕ → ℕ → PlanRequest → World × Result (List IngestRun)
unfolding resolve_cities store_plan validate_plan
create_trip env lookup seed w today user_id body = elim (validate_plan today body) [
  | err problem ↦ (w, err problem)
  | ok _ ↦ store_resolved env seed user_id body (resolve_cities w lookup [] body.city_place_ids)
]
