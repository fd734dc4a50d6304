-- ===== src/Ingest/Enqueue/Tests.antt =====
-- A city in Japan whose ingest is asked for twice at once, and the theorems at it.
use flight_pricing.Base.{◌≡◌, refl, true, none, some, List, [], ◌∷◌, any, map, arith}
use flight_pricing.Base.Text.{codes}
use flight_pricing.Models.People.{City}
use flight_pricing.Models.Ingest.{city_ingest, run_done, failed, IngestRun, IngestTask, Tables}
use flight_pricing.Ingest.Enqueue.{
  enqueue, search_tasks, query_languages, ensure_city_ingest, is_active_of, is_fresh, latest_run,
  trip_ingest,
}
use flight_pricing.Ingest.Enqueue.Dedupe.{is_deduped, enqueue_once}
use flight_pricing.Ingest.Enqueue.Shown.{shows_active, shows_active-trip_ingest}
use flight_pricing.Ingest.Enqueue.Single.{
  IsSingle, IsPolled, RunWrite, opens, marks, settles, works, run_writes,
  ensure_city_ingest-IsSingle,
}

abbrev tokyo : City
tokyo = record {
  city_id = 3;
  name = codes "Tokyo";
  country = some (codes "jp");
  timezone = none;
  lat = none;
  lon = none;
}

abbrev old_run : IngestRun
old_run = record {
  run_id = 1;
  city_id = some 3;
  kind = city_ingest;
  status = run_done;
  requested_at = 2;
  finished_at = some 4;
  failed_task_count = 0;
}

abbrev before : Tables
before = record { runs = old_run ∷ []; tasks = []; ingested = (3, some 5) ∷ [] }

two_languages : query_languages tokyo.country ≡ codes "en" ∷ codes "ja" ∷ []
unfolding query_languages
two_languages = refl

enqueue_once_example :
    let ts = (enqueue [] (search_tasks 6 tokyo) 1 9).0 in
    (is_deduped ts ≡ true) × (enqueue ts (search_tasks 6 tokyo) 20 30 ≡ (ts, 0))
enqueue_once_example = enqueue_once [] (search_tasks 6 tokyo) 1 9 20 30 refl

single : IsSingle before.runs
single c = ground arith

-- Another request opens the city's run, and a worker marks it, between the look and the insert; the
-- tasks fail and the run is settled before the second look, which finds none.
abbrev between : List RunWrite
between = opens tokyo 6 40 100 ∷ marks 6 ∷ []

abbrev after : List RunWrite
after = works (map (λ (t : IngestTask). record t { status = failed })) ∷ settles 6 103 ∷ []

ensure_city_ingest-IsSingle_example :
    let asked =
      ensure_city_ingest before
        (λ d. run_writes d between)
        (λ d. run_writes d after)
        tokyo
        10
        7
        50
        101 in
    IsSingle asked.0.runs
    × IsPolled
        (is_fresh before.ingested 3 10 101)
        3
        (run_writes before between).runs
        (run_writes (run_writes before between) after).runs
        asked.1
ensure_city_ingest-IsSingle_example =
    ensure_city_ingest-IsSingle before between after tokyo 10 7 50 101 single

shows_active-trip_ingest_example :
    shows_active (trip_ingest (latest_run (old_run ∷ [])) (2 ∷ 3 ∷ []))
    ≡ any (λ c. any (is_active_of c) (old_run ∷ [])) (2 ∷ 3 ∷ [])
shows_active-trip_ingest_example = shows_active-trip_ingest (old_run ∷ []) (2 ∷ 3 ∷ [])
