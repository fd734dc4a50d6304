-- ===== src/Ingest/Enqueue.antt =====
-- tp_backend/libs/ingest/enqueue.py: a city and its ingest run, got or created, and the tasks of a run.
pub mod Dedupe
pub mod Single
pub mod Shown
mod Tests
use flight_pricing.Base.{
  ℕ, ◌+◌, ◌-◌, ◌*◌, ◌≡◌, Bool, true, false, not, ◌&&◌, ◌||◌, Option, none, some, List, [], ◌∷◌,
  ◌++◌, map, ltb, leb, ◌==◌, opt_eq, if◌then◌else◌, any, find, filter, member,
}
use flight_pricing.Base.Sort.{sort_by}
use flight_pricing.Base.Text.{Text, codes, text_eq, upper}
use flight_pricing.Models.People.{City}
use flight_pricing.Models.Ingest.{
  RunKind, city_ingest, trip_planning, RunStatus, run_pending, run_running, run_done, run_failed,
  needs_credentials, TaskKind, youtube_search, rednote_search, route_plan, pending, Payload,
  of_videos, of_notes, of_trip, IngestRun, IngestTask, Tables,
}
use flight_pricing.Ingest.Queue.{is_active}

-- A row for `enqueue`. The parts of a dedupe key are numbers, as ids are, with a colon between them.
pub record NewTask : Type 0 where
  pub run_id : ℕ
  pub kind : TaskKind
  pub payload : Payload
  pub dedupe_key : Text

abbrev pub task_row : NewTask → ℕ → ℕ → IngestTask
task_row r id now = record {
  task_id = id;
  run_id = r.run_id;
  kind = r.kind;
  payload = r.payload;
  dedupe_key = r.dedupe_key;
  status = pending;
  attempts = 0;
  max_attempts = 5;
  run_after = now;
  locked_by = none;
  locked_at = none;
  error_code = none;
  finished_at = none;
}

-- `uq_task_run_dedupe`
abbrev pub has_key : ℕ → Text → List IngestTask → Bool
has_key run_id key = any (λ t. t.run_id == run_id && text_eq t.dedupe_key key)

-- `enqueue`: the rows that conflict, also with an earlier one of the same statement, are left out. The
-- sequence of ids moves on for each row. The second result is the number of rows inserted.
unfoldable pub enqueue : List IngestTask → List NewTask → ℕ → ℕ → List IngestTask × ℕ
enqueue ts [] id now = (ts, 0)
enqueue ts (r ∷ rs) id now =
    let known = has_key r.run_id r.dedupe_key ts in
    let done = enqueue (if known then ts else ts ++ task_row r id now ∷ []) rs (id + 1) now in
    (done.0, (if known then 0 else 1) + done.1)

-- `LOCAL_LANGUAGE`
abbrev pub local_languages : List (Text × Text)
local_languages =
    (codes "CN", codes "zh")
    ∷ (codes "DE", codes "de")
    ∷ (codes "DK", codes "da")
    ∷ (codes "ES", codes "es")
    ∷ (codes "FI", codes "fi")
    ∷ (codes "FR", codes "fr")
    ∷ (codes "HK", codes "zh")
    ∷ (codes "ID", codes "id")
    ∷ (codes "IT", codes "it")
    ∷ (codes "JP", codes "ja")
    ∷ (codes "KR", codes "ko")
    ∷ (codes "NL", codes "nl")
    ∷ (codes "NO", codes "no")
    ∷ (codes "PL", codes "pl")
    ∷ (codes "PT", codes "pt")
    ∷ (codes "SE", codes "sv")
    ∷ (codes "TR", codes "tr")
    ∷ (codes "TW", codes "zh")
    ∷ (codes "VN", codes "vi")
    ∷ []

abbrev pub or_blank : Option Text → Text
or_blank none = []
or_blank (some t) = t

-- `query_languages`
unfoldable pub query_languages : Option Text → List Text
unfolding upper
query_languages country =
    elim (find (λ l. text_eq l.0 (upper (or_blank country))) local_languages) [
      | none ↦ codes "en" ∷ []
      | some l ↦ codes "en" ∷ l.1 ∷ []
    ]

-- What the lookup of a city answers.
pub record CityDetails : Type 0 where
  pub place_id : ℕ
  pub name : Text
  pub country : Option Text
  pub timezone : Option Text
  pub lat : Option ℕ
  pub lon : Option ℕ

abbrev pub or_new {ℓ} : {A : Type ℓ} → Option A → Option A → Option A
or_new none new = new
or_new (some a) new = some a

-- The loop over the fields of `ensure_city`: what is missing is filled, and nothing overwritten.
abbrev pub filled : CityDetails → City → City
filled d c = record c {
  country = or_new c.country d.country;
  timezone = or_new c.timezone d.timezone;
  lat = or_new c.lat d.lat;
  lon = or_new c.lon d.lon;
}

abbrev pub new_city : CityDetails → City
new_city d = record {
  city_id = d.place_id;
  name = d.name;
  country = d.country;
  timezone = d.timezone;
  lat = d.lat;
  lon = d.lon;
}

abbrev pub has_city : ℕ → List City → Bool
has_city id = any (λ c. c.city_id == id)

-- `ensure_city`, on the table of cities and its column `last_ingested_at`, null in a new row.
unfoldable pub ensure_city :
    List City → List (ℕ × Option ℕ) → CityDetails → List City × List (ℕ × Option ℕ)
ensure_city cs ingested d =
    let known = has_city d.place_id cs in
    (
      map (λ c. if c.city_id == d.place_id then filled d c else c)
          (if known then cs else cs ++ new_city d ∷ []),
      (if known then ingested else ingested ++ (d.place_id, none) ∷ []),
    )

abbrev pub is_ingest : IngestRun → Bool
is_ingest r = elim r.kind [ city_ingest ↦ true | trip_planning ↦ false ]

-- A city's run that is not over, of which `uq_run_active_city` allows one.
abbrev pub is_active_of : ℕ → IngestRun → Bool
is_active_of city_id r = opt_eq r.city_id (some city_id) && is_ingest r && is_active r.status

-- `_active_run`
abbrev pub active_run : List IngestRun → ℕ → Option IngestRun
active_run rs city_id = find (is_active_of city_id) rs

-- `_is_fresh`; `refresh` is the setting's span.
abbrev pub is_fresh : List (ℕ × Option ℕ) → ℕ → ℕ → ℕ → Bool
is_fresh ingested city_id refresh now = elim (find (λ c. c.0 == city_id) ingested) [
  | none ↦ false
  | some c ↦ elim c.1 [ none ↦ false | some at ↦ ltb now (at + refresh) ]
]

abbrev pub new_run : ℕ → ℕ → RunKind → ℕ → IngestRun
new_run run_id city_id kind now = record {
  run_id = run_id;
  city_id = some city_id;
  kind = kind;
  status = run_pending;
  requested_at = now;
  finished_at = none;
  failed_task_count = 0;
}

-- The numbers that stand for the task kinds in a dedupe key.
abbrev pub kind_part : TaskKind → ℕ
kind_part youtube_search = 1
kind_part rednote_search = 2
kind_part route_plan = 3
kind_part _ = 4

-- `seed_search_tasks`
abbrev pub video_task : ℕ → City → Text → NewTask
video_task run_id city lang = record {
  run_id = run_id;
  kind = youtube_search;
  payload = of_videos city.city_id city.name lang city.country;
  dedupe_key = kind_part youtube_search ∷ 58 ∷ city.city_id ∷ 58 ∷ lang;
}

abbrev pub note_task : ℕ → City → NewTask
note_task run_id city = record {
  run_id = run_id;
  kind = rednote_search;
  payload = of_notes city.city_id (city.name ++ (32 ∷ codes "美食"));
  dedupe_key = kind_part rednote_search ∷ 58 ∷ city.city_id ∷ [];
}

unfoldable pub search_tasks : ℕ → City → List NewTask
unfolding query_languages
search_tasks run_id city =
    map (video_task run_id city) (query_languages city.country) ++ note_task run_id city ∷ []

-- The insert of the run, once the look has found none. Where a run of the city is active by then the
-- index refuses this one, and the city's run is looked for again; `after` is what others commit
-- before that second look, which may find none.
unfoldable pub open_run : Tables → (Tables → Tables) → City → ℕ → ℕ → ℕ → Tables × Option IngestRun
unfolding search_tasks
open_run db after city run_id task_id now = elim (active_run db.runs city.city_id) [
  | some r ↦ (after db, active_run (after db).runs city.city_id)
  | none ↦
      let run = new_run run_id city.city_id city_ingest now in
      (
        record db {
          runs = db.runs ++ run ∷ [];
          tasks = (enqueue db.tasks (search_tasks run_id city) task_id now).0;
        },
        some run,
      )
]

-- `ensure_city_ingest`: `between` is what others commit after the first look.
unfoldable pub ensure_city_ingest :
    Tables
    → (Tables → Tables)
    → (Tables → Tables)
    → City
    → ℕ
    → ℕ
    → ℕ
    → ℕ
    → Tables × Option IngestRun
unfolding open_run
ensure_city_ingest db between after city refresh run_id task_id now =
    if is_fresh db.ingested city.city_id refresh now
    then (db, none)
    else elim (active_run db.runs city.city_id) [
      | some r ↦ (db, some r)
      | none ↦ open_run (between db) after city run_id task_id now
    ]

-- `ensure_trip_plan`, of a trip and its anchor city.
abbrev pub plan_task : ℕ → ℕ → NewTask
plan_task run_id trip_id = record {
  run_id = run_id;
  kind = route_plan;
  payload = of_trip trip_id;
  dedupe_key = kind_part route_plan ∷ 58 ∷ trip_id ∷ [];
}

unfoldable pub ensure_trip_plan : Tables → ℕ → ℕ → ℕ → ℕ → ℕ → Tables
ensure_trip_plan db trip_id city_id run_id task_id now = record db {
  runs = db.runs ++ new_run run_id city_id trip_planning now ∷ [];
  tasks = (enqueue db.tasks (plan_task run_id trip_id ∷ []) task_id now).0;
}

-- The order of `latest_runs`: active runs first, then the latest request, then the id.
abbrev pub later_run : IngestRun → IngestRun → Bool
later_run a b =
    if is_active a.status
    then not (is_active b.status)
      || ltb b.requested_at a.requested_at
      || (b.requested_at == a.requested_at && leb a.run_id b.run_id)
    else not (is_active b.status)
      && (ltb b.requested_at a.requested_at
          || (b.requested_at == a.requested_at && leb a.run_id b.run_id))

abbrev pub first_run : List IngestRun → Option IngestRun
first_run [] = none
first_run (r ∷ rs) = some r

-- `latest_runs`, at one of the cities.
unfoldable pub latest_run : List IngestRun → ℕ → Option IngestRun
latest_run rs city_id =
    first_run (sort_by later_run (filter (λ r. opt_eq r.city_id (some city_id) && is_ingest r) rs))

-- `[runs[c] for c in city_ids if c in runs]`
abbrev pub add_run : Option IngestRun → List IngestRun → List IngestRun
add_run none rest = rest
add_run (some r) rest = r ∷ rest

abbrev pub runs_of : (ℕ → Option IngestRun) → List ℕ → List IngestRun
runs_of latest [] = []
runs_of latest (c ∷ cs) = add_run (latest c) (runs_of latest cs)

abbrev pub is_credentials_run : RunStatus → Bool
is_credentials_run needs_credentials = true
is_credentials_run _ = false

abbrev pub is_done_run : RunStatus → Bool
is_done_run run_done = true
is_done_run _ = false

abbrev pub or_else {ℓ} : {A : Type ℓ} → Option A → Option A → Option A
or_else none b = b
or_else (some a) b = some a

-- `trip_ingest`: the run whose status the trip shows.
unfoldable pub trip_ingest : (ℕ → Option IngestRun) → List ℕ → Option IngestRun
trip_ingest latest city_ids =
    let mine = runs_of latest city_ids in
    or_else (find (λ r. is_active r.status) mine) (
      or_else (find (λ r. is_credentials_run r.status) mine)
        (or_else (find (λ r. is_done_run r.status) mine) (first_run mine)))
