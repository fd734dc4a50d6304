-- ===== src/Ingest/Budget.antt =====
-- A lone worker never gives a task more attempts than it may have.
pub mod Drained
use flight_pricing.Base.{
  ℕ, zero, suc, ◌+◌, ◌-◌, ◌≤◌, ◌≡◌, refl, sym, ap, ◌∙◌, subst, Bool, true, false, not, ◌&&◌, ◌||◌,
  Option, none, some, List, [], ◌∷◌, map, ltb, leb, ◌==◌, if◌then◌else◌, all, any, filter, find,
  arith, ◌⊎◌, inl, inr, Bool-cases, Option-cases, All, All-mono, member, distinct,
}
use flight_pricing.Models.Ingest.{IngestTask, Tables, ErrorCode, transient}
use flight_pricing.Ingest.Queue.{
  ClaimedTask, is_pending, is_running, update_tasks, is_due, next_due, locked, claimed, claim_row,
  claim, completed, complete, parked, block, deferred, defer, waiting, reschedule, given_up, fail,
  finish_run_if_done, settled_tables, mark_running, count, is_outstanding, is_unsettled, verdict,
}
use flight_pricing.Ingest.Claims.{next_due-All, claim-some}
use flight_pricing.Ingest.Worker.{
  Round, Outcome, returned, throttled, task_error, crashed, Handlers, Handler, settle_failure,
  retry_after, or_policy, settle_outcome, execute, claim_next, run_once, drain,
}

-- No attempt beyond the last allowed one, and one left for a task that waits.
abbrev pub in_budget : IngestTask → Bool
in_budget t =
    leb t.attempts t.max_attempts && (not (is_pending t.status) || ltb t.attempts t.max_attempts)

abbrev pub task_ids : List IngestTask → List ℕ
task_ids = map (λ t. t.task_id)

-- Task ids are the table's key, and every task is within its budget.
abbrev pub IsBudgeted : List IngestTask → Type 0
IsBudgeted ts = (distinct (task_ids ts) ≡ true) × (all in_budget ts ≡ true)

-- The rows of a claimed task are as the claim read them.
abbrev pub matches : ClaimedTask → IngestTask → Bool
matches c r =
    not (r.task_id == c.task_id) || (r.attempts == c.attempts && r.max_attempts == c.max_attempts)

pub task_ids-update_tasks :
    (test : IngestTask → Bool) (change : IngestTask → IngestTask) (ts : List IngestTask)
    → ((t : IngestTask) → (change t).task_id ≡ t.task_id)
    → task_ids (update_tasks test change ts) ≡ task_ids ts
task_ids-update_tasks test change [] keep = refl
task_ids-update_tasks test change (t ∷ ts) keep = elim (Bool-cases (test t)) [
  | inl on ↦
      rw on (rw (keep t) (ap (λ xs. t.task_id ∷ xs) (task_ids-update_tasks test change ts keep)))
  | inr off ↦ rw off (ap (λ xs. t.task_id ∷ xs) (task_ids-update_tasks test change ts keep))
]

-- An update of the claimed task's row that keeps the budget of a row as the claim read it.
pub all-update_claimed :
    (c : ClaimedTask) (change : IngestTask → IngestTask) (ts : List IngestTask)
    → ((t : IngestTask)
        → t.attempts ≡ c.attempts
        → t.max_attempts ≡ c.max_attempts
        → in_budget (change t) ≡ true)
    → all in_budget ts ≡ true
    → all (matches c) ts ≡ true
    → all in_budget (update_tasks (λ t. t.task_id == c.task_id) change ts) ≡ true
all-update_claimed c change [] keep h m = refl
all-update_claimed c change (t ∷ ts) keep h m = elim (Bool-cases (t.task_id == c.task_id)) [
  | inl on ↦ rw on (
      rw (keep t (ground arith) (ground arith))
        (all-update_claimed c change ts keep (ground arith) (ground arith)))
  | inr off ↦ rw off (ground (arith, all-update_claimed c change ts keep))
]

-- A claimed task has an attempt that counts, and none beyond its last.
abbrev pub IsClaim : ClaimedTask → Type 0
IsClaim c = (1 ≤ c.attempts) × (c.attempts ≤ c.max_attempts)

pub settle_failure-in_budget :
    (ts : List IngestTask) (c : ClaimedTask) (code : ErrorCode) (override : Option ℕ) (r : Round)
    → IsClaim c
    → all in_budget ts ≡ true
    → all (matches c) ts ≡ true
    → all in_budget (settle_failure ts c code override r) ≡ true
unfolding settle_failure fail defer
settle_failure-in_budget ts c code override r v h m =
    elim (Option-cases (or_policy override (retry_after code c.attempts r.jitter))) [
      | inl terminal ↦
          rw (terminal, settle_failure)
            (all-update_claimed c (given_up code r.ended_at) ts (λ t a b. ground arith) h m)
      | inr (wait, again) ↦ elim (Bool-cases (leb c.max_attempts c.attempts)) [
        | inl exhausted ↦
            rw (again, exhausted, settle_failure)
              (all-update_claimed c (given_up code r.ended_at) ts (λ t a b. ground arith) h m)
        | inr left ↦
            rw (again, left, settle_failure)
              (all-update_claimed c (deferred code (r.ended_at + wait)) ts (λ t a b. ground arith) h
                m)
      ]
    ]

pub task_ids-settle_failure :
    (ts : List IngestTask) (c : ClaimedTask) (code : ErrorCode) (override : Option ℕ) (r : Round)
    → task_ids (settle_failure ts c code override r) ≡ task_ids ts
unfolding settle_failure fail defer
task_ids-settle_failure ts c code override r =
    elim (Option-cases (or_policy override (retry_after code c.attempts r.jitter))) [
      | inl terminal ↦
          rw (terminal, settle_failure)
            (task_ids-update_tasks _ (given_up code r.ended_at) ts (λ t. refl))
      | inr (wait, again) ↦ elim (Bool-cases (leb c.max_attempts c.attempts)) [
        | inl exhausted ↦
            rw (again, exhausted, settle_failure)
              (task_ids-update_tasks _ (given_up code r.ended_at) ts (λ t. refl))
        | inr left ↦
            rw (again, left, settle_failure)
              (task_ids-update_tasks _ (deferred code (r.ended_at + wait)) ts (λ t. refl))
      ]
    ]
