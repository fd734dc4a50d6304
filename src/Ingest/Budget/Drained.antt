-- ===== src/Ingest/Budget/Drained.antt =====
-- The budget after a claim, a round, and the whole of `drain`.
use flight_pricing.Base.{
  ℕ, zero, suc, not, ◌||◌, ltb, ◌+◌, ◌≡◌, refl, sym, ap, ◌∙◌, subst, Bool, true, false, Option,
  none, some, List, [], ◌∷◌, ◌==◌, if◌then◌else◌, all, any, arith, inl, inr, Bool-cases,
  Option-cases, All, All-mono, member, distinct,
}
use flight_pricing.Models.Ingest.{TaskKind, IngestTask, Tables, transient}
use flight_pricing.Ingest.Queue.{
  is_running, is_expired, returned as returned_task, reap_expired, ClaimedTask, is_pending,
  update_tasks, next_due, locked, claimed, claim_row, claim, completed, complete, parked, block,
  waiting, reschedule, finish_run_if_done, settled_tables, count, is_outstanding, is_unsettled,
}
use flight_pricing.Ingest.Claims.{next_due-All, claim-some}
use flight_pricing.Ingest.Worker.{
  Round, Reaping, drain_loop, maybe_reap, Outcome, returned, throttled, task_error, crashed,
  Handlers, Handler, settle_outcome, execute, marked, claim_next, round_from, run_once, drain,
}
use flight_pricing.Ingest.Leases.{all-update_tasks}
use flight_pricing.Ingest.Budget.{
  in_budget, task_ids, IsBudgeted, matches, task_ids-update_tasks, all-update_claimed, IsClaim,
  settle_failure-in_budget, task_ids-settle_failure,
}

absent-All :
    (x : ℕ) (ts : List IngestTask)
    → member x (task_ids ts) ≡ false
    → All (λ q. (q.task_id == x) ≡ false) ts
absent-All x [] h = tt
absent-All x (t ∷ ts) h = (ground arith, absent-All x ts (ground arith))

All-× :
    (P Q : IngestTask → Type 0) (ts : List IngestTask)
    → All P ts
    → All Q ts
    → All (λ t. P t × Q t) ts
All-× P Q [] h k = tt
All-× P Q (t ∷ ts) h k = ((h.0, k.0), All-× P Q ts h.1 k.1)

-- One row for each id.
IsOnly : List IngestTask → IngestTask → Type 0
IsOnly ts r = All (λ q. (q.task_id == r.task_id) ≡ true → q ≡ r) ts

All-IsOnly : (ts : List IngestTask) → distinct (task_ids ts) ≡ true → All (IsOnly ts) ts
unfolding IsOnly
All-IsOnly [] h = tt
All-IsOnly (t ∷ ts) h =
    let others = absent-All t.task_id ts (ground arith) in
    (
      ((λ on. refl), All-mono _ _ ts (λ q off on. absurd (ground arith)) others),
      All-mono _ _ ts (λ r both. ((λ on. absurd (ground arith)), both.0))
          (All-× (IsOnly ts) (λ q. (q.task_id == t.task_id) ≡ false) ts
            (All-IsOnly ts (ground arith)) others),
    )

update-claimed :
    (t : IngestTask) (worker now : ℕ) (ts : List IngestTask)
    → IsOnly ts t
    → is_pending t.status ≡ true
    → in_budget t ≡ true
    → all in_budget ts ≡ true
    → let ts' = update_tasks (λ r. r.task_id == t.task_id) (locked worker now) ts in
      (all in_budget ts' ≡ true) × (all (matches (claimed t)) ts' ≡ true)
unfolding IsOnly
update-claimed t worker now [] only w v h = (refl, refl)
update-claimed t worker now (r ∷ rs) only w v h =
    let ih = update-claimed t worker now rs only.1 w v (ground arith) in
    elim (Bool-cases (r.task_id == t.task_id)) [
      | inl on ↦
          let same : r ≡ t = only.0 on in
          let a : r.attempts ≡ t.attempts = ap (λ (x : IngestTask). x.attempts) same in
          let b : r.max_attempts ≡ t.max_attempts = ap (λ (x : IngestTask). x.max_attempts) same in
          rw on (ground arith)
      | inr off ↦ rw off (ground arith)
    ]

All-of_all :
    (p : IngestTask → Bool) (ts : List IngestTask) → all p ts ≡ true → All (λ t. p t ≡ true) ts
All-of_all p [] h = tt
All-of_all p (t ∷ ts) h = (ground arith, All-of_all p ts (ground arith))

claim-IsBudgeted :
    (ts : List IngestTask) (worker now : ℕ) {ts' : List IngestTask} {c : ClaimedTask}
    → claim ts worker now ≡ (ts', some c)
    → IsBudgeted ts
    → IsBudgeted ts' × (all (matches c) ts' ≡ true) × IsClaim c
claim-IsBudgeted ts worker now {ts'} {c} h (keys, within) =
    let (t, found, made, took) = claim-some ts worker now h in
    let ((only, w), due) =
      next_due-All (λ t. IsOnly ts t × (in_budget t ≡ true)) now ts
        (All-× (IsOnly ts) (λ t. in_budget t ≡ true) ts (All-IsOnly ts keys)
          (All-of_all in_budget ts within))
        found in
    let waits : is_pending t.status ≡ true = ground arith in
    let rows = update-claimed t worker now ts only waits w within in
    let same_ids =
      task_ids-update_tasks (λ r. r.task_id == t.task_id) (locked worker now) ts (λ r. refl) in
    subst (λ d. IsBudgeted ts' × (all (matches d) ts' ≡ true) × IsClaim d) took
      (subst (λ us. IsBudgeted us × (all (matches (claimed t)) us ≡ true) × IsClaim (claimed t))
        made ((ap distinct same_ids ∙ keys, rows.0), rows.1, (ground arith, ground arith)))

settle_outcome-IsBudgeted :
    (db : Tables) (c : ClaimedTask) (o : Outcome) (r : Round)
    → ((db' : Tables) → o ≡ returned db' → IsBudgeted db'.tasks)
    → IsClaim c
    → IsBudgeted db.tasks
    → all (matches c) db.tasks ≡ true
    → IsBudgeted (settle_outcome db c o r).tasks
unfolding settle_outcome complete reschedule
settle_outcome-IsBudgeted db c (returned db') r keep v (keys, within) m =
    let (keys', within') = keep db' refl in
    (
      ap distinct (
            task_ids-update_tasks (λ t. t.task_id == c.task_id) (completed r.ended_at) db'.tasks
              (λ t. refl))
          ∙ keys',
      all-update_tasks in_budget _ (completed r.ended_at) db'.tasks (λ t h. ground arith) within',
    )
settle_outcome-IsBudgeted db c (throttled wait) r keep v (keys, within) m = (
  ap distinct (
        task_ids-update_tasks (λ t. t.task_id == c.task_id) (waiting (r.ended_at + wait)) db.tasks
          (λ t. refl))
      ∙ keys,
  all-update_claimed c (waiting (r.ended_at + wait)) db.tasks (λ t a b. ground arith) within m,
)
settle_outcome-IsBudgeted db c (task_error code override) r keep v (keys, within) m = (
  ap distinct (task_ids-settle_failure db.tasks c code override r) ∙ keys,
  settle_failure-in_budget db.tasks c code override r v within m,
)
settle_outcome-IsBudgeted db c crashed r keep v (keys, within) m = (
  ap distinct (task_ids-settle_failure db.tasks c transient none r) ∙ keys,
  settle_failure-in_budget db.tasks c transient none r v within m,
)

-- What a handler that returns leaves is keyed and within budget, where it found that.
abbrev pub AreKeeping : Handlers → Type 0
AreKeeping handlers =
    (kind : TaskKind) (handler : Handler) (db : Tables) (c : ClaimedTask) (db' : Tables)
    → handlers kind ≡ some handler
    → handler db c ≡ returned db'
    → IsBudgeted db.tasks
    → IsBudgeted db'.tasks

execute-IsBudgeted :
    (handlers : Handlers) (db : Tables) (c : ClaimedTask) (r : Round)
    → AreKeeping handlers
    → IsClaim c
    → IsBudgeted db.tasks
    → all (matches c) db.tasks ≡ true
    → IsBudgeted (execute handlers db c r).tasks
unfolding execute block
execute-IsBudgeted handlers db c r keep v w m = elim (Option-cases (handlers c.kind)) [
  | inl missing ↦
      rw (missing, execute)
        (
          ap distinct (
                task_ids-update_tasks (λ t. t.task_id == c.task_id) (parked r.ended_at) db.tasks
                  (λ t. refl))
              ∙ w.0,
          all-update_tasks in_budget _ (parked r.ended_at) db.tasks (λ t h. ground arith) w.1,
        )
  | inr (handler, known) ↦
      rw (known, execute)
        (settle_outcome-IsBudgeted db c (handler db c) r
          (λ db' ends. keep c.kind handler db c db' known ends w) v w m)
]

tasks-finish_run_if_done :
    (db : Tables) (run_id now : ℕ) → (finish_run_if_done db run_id now).0.tasks ≡ db.tasks
unfolding finish_run_if_done settled_tables
tasks-finish_run_if_done db run_id now =
    elim (Bool-cases (count run_id is_outstanding db.tasks == 0)) [
      | inr busy ↦ rw (busy, finish_run_if_done) refl
      | inl idle ↦ elim (Bool-cases (any (is_unsettled run_id) db.runs)) [
        | inr late ↦ rw (idle, late, finish_run_if_done) refl
        | inl active ↦ rw (idle, active, finish_run_if_done) refl
      ]
    ]

claim-row :
    (ts : List IngestTask) (worker now : ℕ) {o : Option IngestTask}
    → next_due now ts ≡ o
    → claim ts worker now ≡ claim_row ts worker now o
unfolding claim
claim-row ts worker now e = ap (claim_row ts worker now) e

round-IsBudgeted :
    (handlers : Handlers) (worker : ℕ) (db : Tables) (r : Round) (o : Option IngestTask)
    → AreKeeping handlers
    → IsBudgeted db.tasks
    → next_due r.claimed_at db.tasks ≡ o
    → let (db₁, task) = marked db (claim_row db.tasks worker r.claimed_at o) in
      IsBudgeted (round_from handlers db₁ r task).0.tasks
unfolding round_from
round-IsBudgeted handlers worker db r none keep w e = w
round-IsBudgeted handlers worker db r (some t) keep w e =
    let ran = claim_row db.tasks worker r.claimed_at (some t) in
    let (w₁, m, v) =
      claim-IsBudgeted db.tasks worker r.claimed_at {ts' = ran.0} {c = claimed t}
        (claim-row db.tasks worker r.claimed_at e) w in
    let db₁ = (marked db ran).0 in
    let settled = execute handlers db₁ (claimed t) r in
    subst IsBudgeted (sym (tasks-finish_run_if_done settled t.run_id r.settled_at))
      (execute-IsBudgeted handlers db₁ (claimed t) r keep v w₁ m)

run_once-IsBudgeted :
    (handlers : Handlers) (worker : ℕ) (db : Tables) (r : Round)
    → AreKeeping handlers
    → IsBudgeted db.tasks
    → IsBudgeted (run_once handlers worker db r).0.tasks
unfolding run_once claim_next claim
run_once-IsBudgeted handlers worker db r keep w =
    round-IsBudgeted handlers worker db r (next_due r.claimed_at db.tasks) keep w refl

-- How the loop goes on: it stops, it goes on with the next task, or nothing was due.
ends-IsBudgeted :
    (stop more : Bool) (db db₁ db₂ : Tables) (ran : ℕ)
    → IsBudgeted db.tasks
    → IsBudgeted db₁.tasks
    → IsBudgeted db₂.tasks
    → let ended : Tables × ℕ =
        if stop then (db, 0) else (if more then (db₂, ran + 1) else (db₁, 0)) in
      IsBudgeted ended.0.tasks
ends-IsBudgeted true more db db₁ db₂ ran w w₁ w₂ = w
ends-IsBudgeted false true db db₁ db₂ ran w w₁ w₂ = w₂
ends-IsBudgeted false false db db₁ db₂ ran w w₁ w₂ = w₁

drain_loop-IsBudgeted :
    (max_tasks : ℕ) (handlers : Handlers) (worker : ℕ) (db : Tables) (rounds : ℕ → Round)
    → AreKeeping handlers
    → IsBudgeted db.tasks
    → IsBudgeted (drain_loop max_tasks handlers worker db rounds).0.tasks
unfolding drain_loop
drain_loop-IsBudgeted zero handlers worker db rounds keep w = w
drain_loop-IsBudgeted (suc n) handlers worker db rounds keep w =
    let ran = run_once handlers worker db (rounds 0) in
    let w₁ = run_once-IsBudgeted handlers worker db (rounds 0) keep w in
    let rest = drain_loop n handlers worker ran.0 (λ n. rounds (n + 1)) in
    ends-IsBudgeted (rounds 0).stopped ran.1 db ran.0 rest.0 rest.1 w w₁
      (drain_loop-IsBudgeted n handlers worker ran.0 (λ n. rounds (n + 1)) keep w₁)

-- A task that is running has an attempt left after this one.
abbrev pub has_spare : IngestTask → Bool
has_spare t = not (is_running t.status) || ltb t.attempts t.max_attempts

all-reap_expired :
    (lease now : ℕ) (ts : List IngestTask)
    → all in_budget ts ≡ true
    → all has_spare ts ≡ true
    → all in_budget (update_tasks (is_expired lease now) returned_task ts) ≡ true
all-reap_expired lease now [] h k = refl
all-reap_expired lease now (t ∷ ts) h k = elim (Bool-cases (is_expired lease now t)) [
  | inl over ↦
      let ran : is_running t.status ≡ true = ground (arith, over) in
      let rest = all-reap_expired lease now ts (ground arith) (ground arith) in
      rw over (ground (arith, ran, rest, h, k))
  | inr other ↦
      let rest = all-reap_expired lease now ts (ground arith) (ground arith) in
      rw other (ground (arith, rest, h, k))
]

maybe_reap-IsBudgeted :
    (db : Tables) (last_reap reap_interval lease monotonic now : ℕ)
    → IsBudgeted db.tasks
    → all has_spare db.tasks ≡ true
    → IsBudgeted (maybe_reap db last_reap reap_interval lease monotonic now).0.tasks
unfolding maybe_reap reap_expired
maybe_reap-IsBudgeted db last_reap reap_interval lease monotonic now w k =
    elim (Bool-cases (ltb monotonic (last_reap + reap_interval))) [
      | inl soon ↦ rw (maybe_reap, soon) w
      | inr time ↦
          rw (maybe_reap, time)
            (
              ap distinct (
                    task_ids-update_tasks (is_expired lease now) returned_task db.tasks (λ t. refl))
                  ∙ w.0,
              all-reap_expired lease now db.tasks w.1 k,
            )
    ]

-- A lone worker that drains the queue, with whatever handlers and clock, the reap that comes first
-- included, leaves every task with no more attempts than it may have, and every waiting task with one
-- left. The queue was so before, with task ids unique and no task running on its last attempt, which
-- a reap would have wait with none left; and a handler that returns leaves ids and budgets so.
pub drain-IsBudgeted :
    (max_tasks : ℕ) (handlers : Handlers) (worker : ℕ) (db : Tables) (reaping : Reaping)
    (rounds : ℕ → Round)
    → AreKeeping handlers
    → IsBudgeted db.tasks
    → all has_spare db.tasks ≡ true
    → IsBudgeted (drain max_tasks handlers worker db reaping rounds).0.tasks
unfolding drain
drain-IsBudgeted max_tasks handlers worker db r rounds keep w k =
    drain_loop-IsBudgeted max_tasks handlers worker
      (maybe_reap db r.last_reap r.reap_interval r.lease r.monotonic r.at).0 rounds keep
      (maybe_reap-IsBudgeted db r.last_reap r.reap_interval r.lease r.monotonic r.at w k)
