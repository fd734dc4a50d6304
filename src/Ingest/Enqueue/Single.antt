-- ===== src/Ingest/Enqueue/Single.antt =====
-- A city has one active ingest run at most, whatever requests and workers do between a look and an
-- insert.
use flight_pricing.Base.{
  ℕ, ◌+◌, ◌≤◌, ◌≡◌, ◌⊎◌, refl, subst, Bool, true, false, Option, none, some, List, [], ◌∷◌, ◌++◌,
  map, ◌==◌, if◌then◌else◌, any, filter, length, arith, inl, inr, Bool-cases, Option-cases,
}
use flight_pricing.Models.People.{City}
use flight_pricing.Models.Ingest.{
  city_ingest, trip_planning, RunStatus, IngestRun, IngestTask, Tables,
}
use flight_pricing.Ingest.Queue.{
  is_active, mark_running, settle_run, verdict, count, is_failed, is_outstanding, is_unsettled,
  settled_tables, finish_run_if_done,
}
use flight_pricing.Ingest.Settling.{is_active-verdict}
use flight_pricing.Ingest.Enqueue.{
  is_active_of, active_run, is_fresh, new_run, open_run, ensure_city_ingest, ensure_trip_plan,
}

abbrev pub active_runs : ℕ → List IngestRun → ℕ
active_runs c rs = length (filter (is_active_of c) rs)

-- No city has two active ingest runs.
abbrev pub IsSingle : List IngestRun → Type 0
IsSingle rs = (c : ℕ) → active_runs c rs ≤ 1

-- The writes to the runs: a request that opens one, a claim that marks one, a round that settles one,
-- and a request that plans a trip; and any change of tasks alone.
pub data RunWrite : Type 0 where
  opens : City → ℕ → ℕ → ℕ → RunWrite
  marks : ℕ → RunWrite
  settles : ℕ → ℕ → RunWrite
  plans : ℕ → ℕ → ℕ → ℕ → ℕ → RunWrite
  works : (List IngestTask → List IngestTask) → RunWrite

unfoldable pub run_write : Tables → RunWrite → Tables
run_write db (opens city run_id task_id now) = (open_run db (λ d. d) city run_id task_id now).0
run_write db (marks run_id) = record db { runs = mark_running db.runs run_id }
run_write db (works change) = record db { tasks = change db.tasks }
run_write db (settles run_id now) = (finish_run_if_done db run_id now).0
run_write db (plans trip_id city_id run_id task_id now) =
    ensure_trip_plan db trip_id city_id run_id task_id now

abbrev pub run_writes : Tables → List RunWrite → Tables
run_writes db [] = db
run_writes db (w ∷ ws) = run_writes (run_write db w) ws

active_runs-append :
    (c : ℕ) (rs : List IngestRun) (r : IngestRun)
    → active_runs c (rs ++ r ∷ []) ≡ active_runs c rs + (if is_active_of c r then 1 else 0)
active_runs-append c [] r = ground arith
active_runs-append c (q ∷ rs) r = ground (arith, active_runs-append c rs r)

active_runs-none : (c : ℕ) (rs : List IngestRun) → active_run rs c ≡ none → active_runs c rs ≡ 0
active_runs-none c [] h = refl
active_runs-none c (r ∷ rs) h = ground (arith, active_runs-none c rs)

active_run-some :
    (c : ℕ) (rs : List IngestRun) {r : IngestRun}
    → active_run rs c ≡ some r
    → is_active_of c r ≡ true
active_run-some c [] h = cc
active_run-some c (q ∷ rs) {r} h = ground (arith, active_run-some c rs {r = r})

active_runs-map :
    (c : ℕ) (change : IngestRun → IngestRun) (rs : List IngestRun)
    → ((r : IngestRun) → is_active_of c (change r) ≡ true → is_active_of c r ≡ true)
    → active_runs c (map change rs) ≤ active_runs c rs
active_runs-map c change [] h = omega arith
active_runs-map c change (r ∷ rs) h = ground (arith, h r, active_runs-map c change rs h)

open_run-IsSingle :
    (db : Tables) (after : Tables → Tables) (city : City) (run_id task_id now : ℕ)
    → IsSingle db.runs
    → IsSingle (after db).runs
    → IsSingle (open_run db after city run_id task_id now).0.runs
unfolding open_run
open_run-IsSingle db after city run_id task_id now v w c =
    elim (Option-cases (active_run db.runs city.city_id)) [
      | inr (r, found) ↦ rw (found, open_run) (w c)
      | inl missing ↦
          rw (missing, open_run)
            (elim (Bool-cases (city.city_id == c)) [
              | inl same ↦
                  let here : city.city_id ≡ c = ground arith in
                  let nothing = subst (λ k. active_run db.runs k ≡ none) here missing in
                  ground (
                    arith,
                    active_runs-append c db.runs (new_run run_id city.city_id city_ingest now),
                    active_runs-none c db.runs nothing,
                  )
              | inr other ↦ ground (
                arith,
                active_runs-append c db.runs (new_run run_id city.city_id city_ingest now),
                v c,
              )
            ])
    ]

mark_running-keeps :
    (c run_id : ℕ) (rs : List IngestRun) → active_runs c (mark_running rs run_id) ≤ active_runs c rs
unfolding mark_running
mark_running-keeps c run_id rs = active_runs-map c _ rs (λ r h. ground arith)

settle_run-keeps :
    (c run_id lost now : ℕ) (status : RunStatus) (r : IngestRun)
    → is_active status ≡ false
    → is_active_of c (settle_run run_id status lost now r) ≡ true
    → is_active_of c r ≡ true
settle_run-keeps c run_id lost now status r over h = ground arith

finish-keeps :
    (c : ℕ) (db : Tables) (run_id now : ℕ)
    → active_runs c (finish_run_if_done db run_id now).0.runs ≤ active_runs c db.runs
unfolding finish_run_if_done settled_tables
finish-keeps c db run_id now = elim (Bool-cases (count run_id is_outstanding db.tasks == 0)) [
  | inr busy ↦ rw (busy, finish_run_if_done) (omega arith)
  | inl idle ↦ elim (Bool-cases (any (is_unsettled run_id) db.runs)) [
    | inr late ↦ rw (idle, late, finish_run_if_done) (omega arith)
    | inl active ↦
        let lost = count run_id (λ t. is_failed t.status) db.tasks in
        let status = verdict run_id db.tasks in
        rw (idle, active, finish_run_if_done)
          (active_runs-map c (settle_run run_id status lost now) db.runs
            (λ r. settle_run-keeps c run_id lost now status r (is_active-verdict run_id db.tasks)))
  ]
]

run_write-IsSingle :
    (db : Tables) (w : RunWrite) → IsSingle db.runs → IsSingle (run_write db w).runs
unfolding run_write ensure_trip_plan
run_write-IsSingle db (opens city run_id task_id now) v c =
    open_run-IsSingle db (λ d. d) city run_id task_id now v v c
run_write-IsSingle db (works change) v c = v c
run_write-IsSingle db (marks run_id) v c = omega (arith, mark_running-keeps c run_id db.runs, v c)
run_write-IsSingle db (settles run_id now) v c = omega (arith, finish-keeps c db run_id now, v c)
run_write-IsSingle db (plans trip_id city_id run_id task_id now) v c =
    ground (arith, active_runs-append c db.runs (new_run run_id city_id trip_planning now), v c)

run_writes-IsSingle :
    (db : Tables) (ws : List RunWrite) → IsSingle db.runs → IsSingle (run_writes db ws).runs
run_writes-IsSingle db [] v = v
run_writes-IsSingle db (w ∷ ws) v =
    run_writes-IsSingle (run_write db w) ws (run_write-IsSingle db w v)

-- What the client is told to poll: an active run of the city; or nothing, where the city is fresh, or
-- where a run that stood in the way of the insert was over by the second look.
abbrev pub IsPolled : Bool → ℕ → List IngestRun → List IngestRun → Option IngestRun → Type 0
IsPolled fresh c at_insert at_look none =
    (fresh ≡ true) ⊎ ((fresh ≡ false) × (1 ≤ active_runs c at_insert) × (active_runs c at_look ≡ 0))
IsPolled fresh c at_insert at_look (some r) = (fresh ≡ false) × (is_active_of c r ≡ true)

active_runs-some :
    (c : ℕ) (rs : List IngestRun) {r : IngestRun} → active_run rs c ≡ some r → 1 ≤ active_runs c rs
active_runs-some c [] h = cc
active_runs-some c (q ∷ rs) {r} h = ground (arith, active_runs-some c rs {r = r})

open_run-IsPolled :
    (db : Tables) (after : Tables → Tables) (city : City) (run_id task_id now : ℕ)
    → IsPolled false city.city_id db.runs
        (after db).runs
        (open_run db after city run_id task_id now).1
unfolding open_run
open_run-IsPolled db after city run_id task_id now =
    elim (Option-cases (active_run db.runs city.city_id)) [
      | inr (r, found) ↦
          rw (found, open_run)
            (elim (Option-cases (active_run (after db).runs city.city_id)) [
              | inr (q, again) ↦ rw again (refl, active_run-some city.city_id (after db).runs again)
              | inl over ↦ rw over (
                  inr (
                    refl,
                    active_runs-some city.city_id db.runs found,
                    active_runs-none city.city_id (after db).runs over,
                  ))
            ])
      | inl missing ↦ rw (missing, open_run) (refl, ground arith)
    ]

-- Where no city has two active ingest runs, none has after a request for a city's run, whatever
-- requests, claims and settlements are committed between its look for a run and its insert, and
-- between an insert that is refused and the second look. It answers with an active run of the city; or
-- with none, where the city is fresh, or where it is not but a run of the city was active at the
-- insert and none was at the second look.
pub ensure_city_ingest-IsSingle :
    (db : Tables) (between after : List RunWrite) (city : City) (refresh run_id task_id now : ℕ)
    → IsSingle db.runs
    → let asked =
        ensure_city_ingest db
          (λ d. run_writes d between)
          (λ d. run_writes d after)
          city
          refresh
          run_id
          task_id
          now in
      IsSingle asked.0.runs
      × IsPolled
          (is_fresh db.ingested city.city_id refresh now)
          city.city_id
          (run_writes db between).runs
          (run_writes (run_writes db between) after).runs
          asked.1
unfolding ensure_city_ingest
ensure_city_ingest-IsSingle db between after city refresh run_id task_id now v =
    elim (Bool-cases (is_fresh db.ingested city.city_id refresh now)) [
      | inl fresh ↦ rw (fresh, ensure_city_ingest) (v, inl refl)
      | inr stale ↦ elim (Option-cases (active_run db.runs city.city_id)) [
        | inr (r, found) ↦
            rw (stale, found, ensure_city_ingest)
              (v, (refl, active_run-some city.city_id db.runs found))
        | inl missing ↦
            let db' = run_writes db between in
            let look = λ (d : Tables). run_writes d after in
            let v' = run_writes-IsSingle db between v in
            rw (stale, missing, ensure_city_ingest)
              (
                open_run-IsSingle db' look city run_id task_id now v'
                    (run_writes-IsSingle db' after v'),
                open_run-IsPolled db' look city run_id task_id now,
              )
      ]
    ]
