-- ===== src/Trips/Tests.antt =====
-- A trip to a known and a new city, created, drafted and deleted.
use flight_pricing.Base.{
  ℕ, ◌≡◌, ◌&&◌, ◌||◌, refl, true, false, none, some, List, [], ◌∷◌, arith, ◌==◌, if◌then◌else◌,
}
use flight_pricing.Base.Result.{Result, ok, err, no_such_trip, not_a_city}
use flight_pricing.Base.Text.{codes}
use flight_pricing.Models.{Db}
use flight_pricing.Models.People.{Trip, City}
use flight_pricing.Models.Ingest.{city_ingest, run_done, run_running, IngestRun, Tables}
use flight_pricing.Planning.Itinerary.{get_trip}
use flight_pricing.Planning.Shortlist.{claim_city_places, is_claimed}
use flight_pricing.Ingest.Queue.{mark_running}
use flight_pricing.Ingest.Enqueue.{
  CityDetails, ensure_city, ensure_city_ingest, new_run, ensure_trip_plan,
}
use flight_pricing.Ingest.Enqueue.Single.{IsSingle, RunWrite, opens, marks, run_write}
use flight_pricing.Drafting.Task.{Around, skipped, no_trip, draft}
use flight_pricing.Trips.Create.{
  World, PlanRequest, Found, other_place, city_found, Env, create_trip,
}
use flight_pricing.Trips.Change.{delete_trip, claim_after_ingest, queue_draft}
use flight_pricing.Trips.Resolved.{is_asked}
use flight_pricing.Planning.Shortlist.Listed.{is_standing, is_stop}
use flight_pricing.Trips.Refused.{IsUntouched, create_trip-IsUntouched}
use flight_pricing.Trips.Created.{IsCreated, with_writes, create_trip-IsCreated}
use flight_pricing.Trips.Claimed.{is_of_stop, claim_after_ingest_lists}
use flight_pricing.Trips.Queued.{delete_trip_final}

abbrev rome : City
rome = record {
  city_id = 4;
  name = codes "Rome";
  country = some (codes "IT");
  timezone = none;
  lat = none;
  lon = none;
}

abbrev details : ℕ → CityDetails
details c = record {
  place_id = c;
  name = codes "Rome";
  country = some (codes "IT");
  timezone = none;
  lat = some 1;
  lon = none;
}

-- 14 is an alias of 4, and 13 is no city.
abbrev lookup : ℕ → Found
lookup n =
    if n == 13
    then other_place
    else if n == 14
    then city_found (details 4)
    else city_found (details n)

abbrev trip : Trip
trip = record {
  trip_id = 8;
  city_id = 4;
  name = none;
  arrive_date = 100;
  arrive_time = none;
  depart_date = 101;
  depart_time = none;
  extra_details = none;
  deleted = false;
}

abbrev world : World
world = record {
  db = record {
    users = [];
    cities = rome ∷ [];
    trips = trip ∷ [];
    user_trips = [];
    expenses = [];
    settlements = [];
    places =
        record {
          place_id = 5;
          city_id = 4;
          name = codes "A";
          category = none;
          address = none;
          locality = none;
        }
        ∷ [];
    items = [];
    trip_days = [];
    trip_places = [];
    trip_dismissals = [];
    trip_cities = record { trip_id = 8; city_id = 4; created_at = 1 } ∷ [];
    place_queries = [];
  };
  queue = record { runs = []; tasks = []; ingested = [] };
}

abbrev request : List ℕ → PlanRequest
request cs = record {
  city_place_ids = cs;
  name = some (32 ∷ 65 ∷ []);
  arrive_date = 100;
  arrive_time = none;
  depart_date = 102;
  depart_time = none;
  extra_details = none;
}

abbrev env : Env
env = record {
  now = 50;
  refresh = 10;
  trip_id = 9;
  run_ids = λ k. if k == 0 then 20 else 21;
  task_ids = λ k. if k == 0 then 30 else 40;
  between = λ k q. q;
  after = λ k q. q;
}

-- Someone else asks for the first city's run in between.
abbrev writes : ℕ → List RunWrite
writes k = if k == 0 then opens rome 25 60 49 ∷ [] else []

-- And the run that they opened is marked.
abbrev later : ℕ → List RunWrite
later k = if k == 0 then marks 25 ∷ [] else []

abbrev refused : World × Result (List IngestRun)
refused = create_trip env lookup (λ d. d) world 90 2 (request (7 ∷ 13 ∷ []))

refused_eq : refused ≡ (refused.0, err not_a_city)
unfolding create_trip
refused_eq = refl

create_trip-IsUntouched_example : IsUntouched (is_asked lookup (7 ∷ 13 ∷ [])) world refused.0
create_trip-IsUntouched_example =
    create_trip-IsUntouched env lookup (λ d. d) world 90 2 (request (7 ∷ 13 ∷ [])) {w' = refused.0}
      {problem = not_a_city} refused_eq

abbrev created : World × Result (List IngestRun)
created =
    create_trip (with_writes env writes later) lookup (λ d. d) world 90 2
      (request (4 ∷ 14 ∷ 7 ∷ []))

abbrev runs : List IngestRun
runs =
    record (new_run 25 4 city_ingest 49) { status = run_running } ∷ new_run 21 7 city_ingest 50 ∷ []

created_eq : created ≡ (created.0, ok runs)
unfolding create_trip ensure_city ensure_city_ingest run_write mark_running claim_city_places
created_eq = refl

no_runs : IsSingle world.queue.runs
no_runs c = omega arith

create_trip-IsCreated_example : IsCreated lookup env world created.0 2 (request (4 ∷ 14 ∷ 7 ∷ []))
create_trip-IsCreated_example =
    create_trip-IsCreated env writes later lookup world 90 2 (request (4 ∷ 14 ∷ 7 ∷ []))
      {w' = created.0} {runs = runs} (record { no_trip = refl; no_access = refl }) no_runs
      created_eq

abbrev queued : Tables
queued = ensure_trip_plan world.queue 8 4 1 1 50

abbrev hidden : Db
hidden = record world.db { trips = record trip { deleted = true } ∷ [] }

hidden_eq : delete_trip world.db 8 ≡ ok hidden
unfolding delete_trip get_trip
hidden_eq = refl

delete_trip_final_example :
    (delete_trip hidden 8 ≡ ok hidden)
    × ((q : Tables) (r k n : ℕ) → queue_draft hidden q 8 r k n ≡ err no_such_trip)
    × ((e : Around) → draft e hidden 8 ≡ ok (hidden, skipped no_trip))
delete_trip_final_example = delete_trip_final world.db 8 {db' = hidden} hidden_eq

abbrev over : IngestRun
over = record (new_run 1 4 city_ingest 50) { status = run_done }

claim_after_ingest_lists_example :
    is_claimed 8 5 (claim_after_ingest world.db (over ∷ []) 1).trip_places ≡ (
      false
      || (is_standing world.db 8
          && is_stop world.db 8 4
          && is_of_stop world.db 8 5 world.db.trip_cities))
claim_after_ingest_lists_example =
    claim_after_ingest_lists world.db (over ∷ []) 1 4 8 5 {run = over} refl refl refl refl
