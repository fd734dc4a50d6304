-- ===== src/Ingest/Queue.antt =====
-- tp_backend/tp_ingestions/queue.py: claiming and settling tasks. `now()` is an argument.
use flight_pricing.Base.{
  ℕ, ◌+◌, ◌-◌, Bool, true, false, not, ◌&&◌, ◌||◌, Option, none, some, List, [], ◌∷◌, map, ltb, leb,
  ◌==◌, opt_eq, if◌then◌else◌, any, find, filter, length,
}
use flight_pricing.Base.Sort.{sort_by}
use flight_pricing.Models.Ingest.{
  city_ingest, trip_planning, RunStatus, run_pending, run_running, run_done, run_failed,
  needs_credentials, TaskStatus, pending, running, done, failed, blocked, ErrorCode, credentials,
  TaskKind, Payload, IngestRun, IngestTask, Tables,
}

pub record ClaimedTask : Type 0 where
  pub task_id : ℕ
  pub run_id : ℕ
  pub kind : TaskKind
  pub payload : Payload
  pub attempts : ℕ
  pub max_attempts : ℕ

abbrev pub is_pending : TaskStatus → Bool
is_pending pending = true
is_pending _ = false

abbrev pub is_running : TaskStatus → Bool
is_running running = true
is_running _ = false

abbrev pub is_done : TaskStatus → Bool
is_done done = true
is_done _ = false

abbrev pub is_failed : TaskStatus → Bool
is_failed failed = true
is_failed _ = false

-- `ACTIVE_RUN`
abbrev pub is_active : RunStatus → Bool
is_active run_pending = true
is_active run_running = true
is_active _ = false

-- `UPDATE ... WHERE`: every row that the test holds of.
abbrev pub update_tasks :
    (IngestTask → Bool) → (IngestTask → IngestTask) → List IngestTask → List IngestTask
update_tasks test change = map (λ t. if test t then change t else t)

abbrev pub is_due : ℕ → IngestTask → Bool
is_due now t = is_pending t.status && leb t.run_after now

-- `ORDER BY task_id LIMIT 1` of the due tasks.
abbrev pub head_of : List IngestTask → Option IngestTask
head_of [] = none
head_of (t ∷ ts) = some t

abbrev pub by_id : IngestTask → IngestTask → Bool
by_id a b = leb a.task_id b.task_id

abbrev pub next_due : ℕ → List IngestTask → Option IngestTask
next_due now ts = head_of (sort_by by_id (filter (is_due now) ts))

abbrev pub locked : ℕ → ℕ → IngestTask → IngestTask
locked worker now t = record t {
  status = running;
  locked_by = some worker;
  locked_at = some now;
  attempts = t.attempts + 1;
}

abbrev pub claimed : IngestTask → ClaimedTask
claimed t = record {
  task_id = t.task_id;
  run_id = t.run_id;
  kind = t.kind;
  payload = t.payload;
  attempts = t.attempts + 1;
  max_attempts = t.max_attempts;
}

-- The update and its `RETURNING`, by the row that the inner query found.
abbrev pub claim_row :
    List IngestTask → ℕ → ℕ → Option IngestTask → List IngestTask × Option ClaimedTask
claim_row ts worker now none = (ts, none)
claim_row ts worker now (some t) =
    (update_tasks (λ r. r.task_id == t.task_id) (locked worker now) ts, some (claimed t))

-- `claim`
unfoldable pub claim : List IngestTask → ℕ → ℕ → List IngestTask × Option ClaimedTask
claim ts worker now = claim_row ts worker now (next_due now ts)

-- A lease that ended before now; the comparison with a null is not true.
abbrev pub is_expired : ℕ → ℕ → IngestTask → Bool
is_expired lease now t =
    is_running t.status && elim t.locked_at [ none ↦ false | some at ↦ ltb (at + lease) now ]

abbrev pub returned : IngestTask → IngestTask
returned t = record t { status = pending; locked_by = none; locked_at = none }

-- `reap_expired`
unfoldable pub reap_expired : List IngestTask → ℕ → ℕ → List IngestTask × List ℕ
reap_expired ts lease now = (
  update_tasks (is_expired lease now) returned ts,
  map (λ t. t.task_id) (filter (is_expired lease now) ts),
)

-- `mark_running`
unfoldable pub mark_running : List IngestRun → ℕ → List IngestRun
mark_running rs run_id =
    map
      (λ r.
        if r.run_id == run_id && elim r.status [
          | run_pending ↦ true
          | run_running ↦ false
          | run_done ↦ false
          | run_failed ↦ false
          | needs_credentials ↦ false
        ]
        then record r { status = run_running }
        else r)
      rs

-- `complete`, `block`, `defer`, `reschedule` and `fail`, by what they make of the task's row.
abbrev pub completed : ℕ → IngestTask → IngestTask
completed now t = record t {
  status = done;
  finished_at = some now;
  locked_by = none;
  locked_at = none;
  error_code = none;
}

unfoldable pub complete : List IngestTask → ℕ → ℕ → List IngestTask
complete ts task_id now = update_tasks (λ t. t.task_id == task_id) (completed now) ts

abbrev pub parked : ℕ → IngestTask → IngestTask
parked now t = record t {
  status = blocked;
  finished_at = some now;
  locked_by = none;
  locked_at = none;
}

unfoldable pub block : List IngestTask → ℕ → ℕ → List IngestTask
block ts task_id now = update_tasks (λ t. t.task_id == task_id) (parked now) ts

abbrev pub deferred : ErrorCode → ℕ → IngestTask → IngestTask
deferred code when t = record t {
  status = pending;
  run_after = when;
  locked_by = none;
  locked_at = none;
  error_code = some code;
}

unfoldable pub defer : List IngestTask → ℕ → ErrorCode → ℕ → List IngestTask
defer ts task_id code when = update_tasks (λ t. t.task_id == task_id) (deferred code when) ts

-- The column is an integer; a claim has added the attempt that this takes back.
abbrev pub waiting : ℕ → IngestTask → IngestTask
waiting when t = record t {
  status = pending;
  run_after = when;
  locked_by = none;
  locked_at = none;
  attempts = t.attempts - 1;
}

unfoldable pub reschedule : List IngestTask → ℕ → ℕ → List IngestTask
reschedule ts task_id when = update_tasks (λ t. t.task_id == task_id) (waiting when) ts

abbrev pub given_up : ErrorCode → ℕ → IngestTask → IngestTask
given_up code now t = record t {
  status = failed;
  finished_at = some now;
  locked_by = none;
  locked_at = none;
  error_code = some code;
}

unfoldable pub fail : List IngestTask → ℕ → ErrorCode → ℕ → List IngestTask
fail ts task_id code now = update_tasks (λ t. t.task_id == task_id) (given_up code now) ts

-- The counts that `finish_run_if_done` takes of one run's tasks.
abbrev pub count : ℕ → (IngestTask → Bool) → List IngestTask → ℕ
count run_id test ts = length (filter (λ t. t.run_id == run_id && test t) ts)

abbrev pub is_outstanding : IngestTask → Bool
is_outstanding t = is_pending t.status || is_running t.status

abbrev pub is_credentials : Option ErrorCode → Bool
is_credentials (some credentials) = true
is_credentials _ = false

abbrev pub verdict : ℕ → List IngestTask → RunStatus
verdict run_id ts =
    if not (count run_id (λ t. is_credentials t.error_code) ts == 0)
    then needs_credentials
    else if not (count run_id (λ t. is_failed t.status) ts == 0)
        && count run_id (λ t. is_done t.status) ts == 0
    then run_failed
    else run_done

abbrev pub is_unsettled : ℕ → IngestRun → Bool
is_unsettled run_id r = r.run_id == run_id && is_active r.status

abbrev pub settle_run : ℕ → RunStatus → ℕ → ℕ → IngestRun → IngestRun
settle_run run_id status lost now r =
    if is_unsettled run_id r
    then record r { status = status; finished_at = some now; failed_task_count = lost }
    else r

-- The city of a run that read its sources, whose row is then stamped.
abbrev pub read_city : ℕ → List IngestRun → Option ℕ
read_city run_id rs = elim (find (λ r. r.run_id == run_id) rs) [
  | none ↦ none
  | some r ↦ elim r.kind [ city_ingest ↦ r.city_id | trip_planning ↦ none ]
]

abbrev pub stamp : Option ℕ → ℕ → List (ℕ × Option ℕ) → List (ℕ × Option ℕ)
stamp city now = map (λ c. if opt_eq city (some c.0) then (c.0, some now) else c)

-- The writes, once nothing of the run is outstanding.
unfoldable pub settled_tables : Tables → ℕ → ℕ → Tables
settled_tables db run_id now =
    let runs =
      map
        (settle_run run_id (verdict run_id db.tasks)
          (count run_id (λ t. is_failed t.status) db.tasks) now)
        db.runs in
    record db {
      runs = runs;
      ingested =
          if count run_id (λ t. is_done t.status) db.tasks == 0
          then db.ingested
          else stamp (read_city run_id db.runs) now db.ingested;
    }

-- `finish_run_if_done`
unfoldable pub finish_run_if_done : Tables → ℕ → ℕ → Tables × Option RunStatus
unfolding settled_tables
finish_run_if_done db run_id now =
    if not (count run_id is_outstanding db.tasks == 0)
    then (db, none)
    else if any (is_unsettled run_id) db.runs
    then (settled_tables db run_id now, some (verdict run_id db.tasks))
    else (db, none)
