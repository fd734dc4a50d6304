-- ===== src/Ingest/Worker.antt =====
-- tp_backend/tp_ingestions/worker.py, retry.py and errors.py: a task is claimed, handled and settled,
-- and then its run. The handlers are an argument, as the table `HANDLERS` is; the clock's readings and
-- the jitter are arguments, in microseconds.
use flight_pricing.Base.{
  ℕ, ◌+◌, ◌-◌, ◌*◌, ◌^◌, Bool, true, false, Option, none, some, List, ltb, leb, if◌then◌else◌, min,
  zero, suc,
}
use flight_pricing.Models.Ingest.{
  ErrorCode, transient, rate_limited, credentials, quota, permanent, IngestTask, Tables, TaskKind,
}
use flight_pricing.Ingest.Queue.{
  ClaimedTask, claim, reap_expired, mark_running, complete, block, defer, reschedule, fail,
  finish_run_if_done,
}

abbrev pub seconds : ℕ → ℕ
seconds n = n * 10 ^ 6

-- The backoff before its jitter, in seconds.
abbrev pub backoff : ℕ → ℕ
backoff attempts = min 300 (5 * 2 ^ (attempts - 1))

-- `retry_after`: the wait before the next attempt, or none to give up.
unfoldable pub retry_after : ErrorCode → ℕ → ℕ → Option ℕ
retry_after permanent attempts jitter = none
retry_after credentials attempts jitter = none
retry_after quota attempts jitter = some (seconds (6 * 3600))
retry_after rate_limited attempts jitter = some (seconds (300 * attempts))
retry_after transient attempts jitter = some (seconds (backoff attempts) + jitter)

-- How a handler ends: it returns, its writes kept, or raises, its writes undone.
pub data Outcome : Type 0 where
  returned : Tables → Outcome
  throttled : ℕ → Outcome
  task_error : ErrorCode → Option ℕ → Outcome
  crashed : Outcome

abbrev pub Handler : Type 0
Handler = Tables → ClaimedTask → Outcome

abbrev pub Handlers : Type 0
Handlers = TaskKind → Option Handler

-- What a round reads: whether the worker has been told to stop, and the time at its claim, at the
-- handler's end and when the run is settled.
pub record Round : Type 0 where
  pub stopped : Bool
  pub claimed_at : ℕ
  pub ended_at : ℕ
  pub settled_at : ℕ
  pub jitter : ℕ

abbrev pub or_policy : Option ℕ → Option ℕ → Option ℕ
or_policy none policy = policy
or_policy (some wait) policy = some wait

-- `_settle_failure`
unfoldable pub settle_failure :
    List IngestTask → ClaimedTask → ErrorCode → Option ℕ → Round → List IngestTask
settle_failure ts task code override r =
    elim (or_policy override (retry_after code task.attempts r.jitter)) [
      | none ↦ fail ts task.task_id code r.ended_at
      | some wait ↦
          if leb task.max_attempts task.attempts
          then fail ts task.task_id code r.ended_at
          else defer ts task.task_id code (r.ended_at + wait)
    ]

-- The branches of `_execute` after the handler is found.
unfoldable pub settle_outcome : Tables → ClaimedTask → Outcome → Round → Tables
unfolding settle_failure
settle_outcome db task (returned db') r = record db' {
  tasks = complete db'.tasks task.task_id r.ended_at;
}
settle_outcome db task (throttled wait) r = record db {
  tasks = reschedule db.tasks task.task_id (r.ended_at + wait);
}
settle_outcome db task (task_error code override) r = record db {
  tasks = settle_failure db.tasks task code override r;
}
settle_outcome db task crashed r = record db {
  tasks = settle_failure db.tasks task transient none r;
}

-- `_execute`
unfoldable pub execute : Handlers → Tables → ClaimedTask → Round → Tables
unfolding settle_outcome
execute handlers db task r = elim (handlers task.kind) [
  | none ↦ record db { tasks = block db.tasks task.task_id r.ended_at }
  | some handler ↦ settle_outcome db task (handler db task) r
]

-- The transaction that claims, and marks the run of a claimed task.
abbrev pub marked : Tables → List IngestTask × Option ClaimedTask → Tables × Option ClaimedTask
marked db (ts, none) = (record db { tasks = ts }, none)
marked db (ts, some t) = (record db { tasks = ts; runs = mark_running db.runs t.run_id }, some t)

unfoldable pub claim_next : Tables → ℕ → Round → Tables × Option ClaimedTask
claim_next db worker r = marked db (claim db.tasks worker r.claimed_at)

-- A round after its claim.
unfoldable pub round_from : Handlers → Tables → Round → Option ClaimedTask → Tables × Bool
unfolding execute
round_from handlers db r none = (db, false)
round_from handlers db r (some t) =
    ((finish_run_if_done (execute handlers db t r) t.run_id r.settled_at).0, true)

-- `run_once`, without the places that trips claim once a run is settled.
unfoldable pub run_once : Handlers → ℕ → Tables → Round → Tables × Bool
unfolding round_from claim_next
run_once handlers worker db r =
    let (db₁, task) = claim_next db worker r in round_from handlers db₁ r task

-- `_maybe_reap`: `monotonic` is `time.monotonic()`, and the second result the new `_last_reap`.
unfoldable pub maybe_reap : Tables → ℕ → ℕ → ℕ → ℕ → ℕ → Tables × ℕ
maybe_reap db last_reap reap_interval lease monotonic now =
    if ltb monotonic (last_reap + reap_interval)
    then (db, last_reap)
    else (record db { tasks = (reap_expired db.tasks lease now).0 }, monotonic)

-- The loop of `drain`, with the number of tasks that ran; `rounds` gives each round its readings.
unfoldable pub drain_loop : ℕ → Handlers → ℕ → Tables → (ℕ → Round) → Tables × ℕ
unfolding run_once
drain_loop zero handlers worker db rounds = (db, 0)
drain_loop (suc max_tasks) handlers worker db rounds =
    let (db₁, more) = run_once handlers worker db (rounds 0) in
    let (db₂, ran) = drain_loop max_tasks handlers worker db₁ (λ n. rounds (n + 1)) in
    if (rounds 0).stopped then (db, 0) else (if more then (db₂, ran + 1) else (db₁, 0))

-- What `_maybe_reap` reads: `_last_reap`, `_REAP_SECONDS`, the lease, `time.monotonic()` and the time.
pub record Reaping : Type 0 where
  pub last_reap : ℕ
  pub reap_interval : ℕ
  pub lease : ℕ
  pub monotonic : ℕ
  pub at : ℕ

-- `drain`
unfoldable pub drain : ℕ → Handlers → ℕ → Tables → Reaping → (ℕ → Round) → Tables × ℕ
unfolding drain_loop maybe_reap
drain max_tasks handlers worker db r rounds =
    drain_loop max_tasks handlers worker
      (maybe_reap db r.last_reap r.reap_interval r.lease r.monotonic r.at).0 rounds
