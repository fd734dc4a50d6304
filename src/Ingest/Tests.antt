-- ===== src/Ingest/Tests.antt =====
-- A queue of one run with two tasks, and the queue's theorems at it.
use flight_pricing.Base.{
  ℕ, subst, sym, ◌≡◌, refl, true, false, none, some, List, [], ◌∷◌, all, any, arith,
}
use flight_pricing.Models.Ingest.{
  running, city_ingest, run_running, run_done, pending, done, failed, transient, IngestTask, Tables,
  youtube_search, other,
}
use flight_pricing.Ingest.Queue.{
  is_active, is_outstanding, is_unsettled, count, claim, finish_run_if_done, settled_tables,
}
use flight_pricing.Ingest.Worker.{Round, Reaping, task_error, returned, Handler, Handlers, drain}
use flight_pricing.Ingest.Leases.{
  Write, claims, reaps, completes, defers, write_all, is_leased, write_all-is_leased,
}
use flight_pricing.Ingest.Claims.{IsClaim, claim_once}
use flight_pricing.Ingest.Settling.{finish_run_if_done_once}
use flight_pricing.Ingest.Budget.{IsBudgeted}
use flight_pricing.Ingest.Budget.Drained.{AreKeeping, drain-IsBudgeted}
use flight_pricing.Ingest.Throttle.{
  Throttler, Jitter, wait, try_spend, wait_for, wait_over, history,
}
use flight_pricing.Ingest.Throttle.Windows.{IsWithin, try_all, try_all-IsWithin}

abbrev task : ℕ → IngestTask
task n = record {
  task_id = n;
  run_id = 4;
  kind = youtube_search;
  payload = other [];
  dedupe_key = n ∷ [];
  status = pending;
  attempts = 0;
  max_attempts = 2;
  run_after = 10;
  locked_by = none;
  locked_at = none;
  error_code = none;
  finished_at = none;
}

abbrev queue : List IngestTask
queue = task 7 ∷ task 5 ∷ []

-- The first worker's lease ends, a second worker claims its task, and the first one settles it late.
abbrev late : List Write
late = claims 1 20 ∷ reaps 5 30 ∷ claims 2 31 ∷ completes 5 32 ∷ defers 5 transient 40 ∷ []

write_all-is_leased_example : all is_leased (write_all queue late) ≡ true
write_all-is_leased_example = write_all-is_leased queue late refl

abbrev once : List IngestTask
once = (claim queue 1 20).0

claim_once_example : IsClaim queue 1 20 (claim queue 1 20)
claim_once_example = claim_once queue 1 20

abbrev finished : Tables
finished = record {
  runs =
      record {
        run_id = 4;
        city_id = some 3;
        kind = city_ingest;
        status = run_running;
        requested_at = 1;
        finished_at = none;
        failed_task_count = 0;
      }
      ∷ [];
  tasks = record (task 7) { status = done } ∷ record (task 5) { status = failed } ∷ [];
  ingested = (3, none) ∷ [];
}

finish_run_if_done_once_example :
    (count 4 is_outstanding finished.tasks ≡ 0)
    × (any (is_unsettled 4) finished.runs ≡ true)
    × (is_active run_done ≡ false)
    × (finish_run_if_done (settled_tables finished 4 50) 4 60
        ≡ (settled_tables finished 4 50, none))
unfolding finish_run_if_done
finish_run_if_done_once_example =
    finish_run_if_done_once finished 4 50 60 run_done {db' = settled_tables finished 4 50} refl

-- Every task fails, for a reason that may pass.
abbrev gives_up : Handler
gives_up db c = task_error transient none

abbrev failing : Handlers
failing kind = some gives_up

abbrev reading : ℕ → Round
reading n = record { stopped = false; claimed_at = 20; ended_at = 20; settled_at = 20; jitter = 0 }

failing-AreKeeping : AreKeeping failing
failing-AreKeeping kind handler db c db' known ends w =
    let same : ◌≡◌ {A = Handler} gives_up handler = cc in
    let ran : task_error transient none ≡ returned db' =
      subst (λ (h : Handler). h db c ≡ returned db') (sym same) ends in
    cc

-- Another worker died with a task on its first attempt, which the reap takes back.
abbrev left : Tables
left = record finished {
  tasks =
      record (task 9) { status = running; attempts = 1; locked_by = some 2; locked_at = some 3 }
      ∷ queue;
}

abbrev reaping : Reaping
reaping = record { last_reap = 0; reap_interval = 4; lease = 5; monotonic = 6; at = 20 }

drain-IsBudgeted_example : IsBudgeted (drain 3 failing 1 left reaping reading).0.tasks
drain-IsBudgeted_example =
    drain-IsBudgeted 3 failing 1 left reaping reading failing-AreKeeping (refl, refl) refl

-- Two calls in 10 units, three in 100.
abbrev budget : Throttler
budget = record { domain = 2; min_gap = 0; given = (3, 100) ∷ (2, 10) ∷ []; max_inline_wait = 50 }

abbrev still : Jitter
still = record { of_limit = λ l. 0; of_gap = 0 }

abbrev tries : List (ℕ × Jitter)
tries = (5, still) ∷ (6, still) ∷ (7, still) ∷ (20, still) ∷ []

third_waits :
    (try_spend budget (try_all budget [] ((5, still) ∷ (6, still) ∷ [])) 7 still).1 ≡ wait 8
unfolding try_spend wait_for wait_over history
third_waits = refl

try_all-IsWithin_example : IsWithin budget (try_all budget [] tries) 20
try_all-IsWithin_example =
    try_all-IsWithin budget [] 0 tries
      (omega arith, (omega arith, (omega arith, (omega arith, tt))))
      (omega arith, (omega arith, tt))
