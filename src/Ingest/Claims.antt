-- ===== src/Ingest/Claims.antt =====
-- What `claim` of tp_backend/libs/ingest/queue.py takes, against a description of a row that is due.
use flight_pricing.Base.{
  ℕ, ◌+◌, ◌≤◌, ◌≡◌, ◌≢◌, ◌⊎◌, refl, ap, subst, Bool, true, Option, none, some, List, [], ◌∷◌, ◌==◌,
  filter, arith, inl, inr, Bool-cases, Option-cases, All, All-filter_test, All-mono, map,
  if◌then◌else◌, leb→le,
}
use flight_pricing.Base.Sort.{
  insert_by, sort_by, All-sort_by, All-of_sort_by, IsSorted, sort_by-IsSorted,
}
use flight_pricing.Models.Ingest.{
  IngestTask, TaskStatus, pending, running, done, failed, skipped, blocked,
}
use flight_pricing.Ingest.Queue.{
  ClaimedTask, is_pending, is_running, update_tasks, is_due, head_of, by_id, next_due, locked,
  claimed, claim,
}

head_of-All :
    (P : IngestTask → Type 0) (ts : List IngestTask) {t : IngestTask}
    → All P ts
    → head_of ts ≡ some t
    → P t
head_of-All P [] h e = cc
head_of-All P (x ∷ xs) {t} h e = let same : x ≡ t = cc in subst P same h.0

-- The task that a claim finds is due, and is as every task is.
pub next_due-All :
    (P : IngestTask → Type 0) (now : ℕ) (ts : List IngestTask) {t : IngestTask}
    → All P ts
    → next_due now ts ≡ some t
    → P t × (is_due now t ≡ true)
next_due-All P now ts h e =
    head_of-All (λ x. P x × (is_due now x ≡ true)) (sort_by by_id (filter (is_due now) ts))
      (All-sort_by (λ x. P x × (is_due now x ≡ true)) by_id (filter (is_due now) ts)
        (All-filter_test P (is_due now) ts h))
      e

some_inj : {c c' : ClaimedTask} → some c ≡ some c' → c ≡ c'
some_inj e = cc

-- What a claim that finds a task did.
pub claim-some :
    (ts : List IngestTask) (worker now : ℕ) {ts' : List IngestTask} {c : ClaimedTask}
    → claim ts worker now ≡ (ts', some c)
    → (t : IngestTask) × (next_due now ts ≡ some t)
      × (update_tasks (λ r. r.task_id == t.task_id) (locked worker now) ts ≡ ts')
      × (claimed t ≡ c)
unfolding claim
claim-some ts worker now {ts'} {c} h = elim (Option-cases (next_due now ts)) [
  | inl nothing ↦ let k = rw nothing at h in cc
  | inr (t, found) ↦
      let k = rw found at h in (t, found, ap (λ p. p.0) k, some_inj (ap (λ p. p.1) k))
]

head-le :
    (t : IngestTask) (ts : List IngestTask)
    → IsSorted by_id (t ∷ ts)
    → All (λ r. t.task_id ≤ r.task_id) ts
head-le t [] h = tt
head-le t (x ∷ xs) h = (
  ground arith,
  All-mono (λ r. x.task_id ≤ r.task_id) (λ r. t.task_id ≤ r.task_id) xs (λ r le. ground arith)
      (head-le x xs h.1),
)

head_of-le :
    (ts : List IngestTask) {t : IngestTask}
    → IsSorted by_id ts
    → head_of ts ≡ some t
    → All (λ r. t.task_id ≤ r.task_id) ts
head_of-le [] h e = tt
head_of-le (x ∷ xs) {t} h e =
    let same : x ≡ t = cc in
    subst (λ y. All (λ r. y.task_id ≤ r.task_id) (x ∷ xs)) same (omega arith, head-le x xs h)

All-of_filter :
    (P : IngestTask → Type 0) (p : IngestTask → Bool) (ts : List IngestTask)
    → All P (filter p ts)
    → All (λ r. p r ≡ true → P r) ts
All-of_filter P p [] h = tt
All-of_filter P p (x ∷ xs) h = elim (Bool-cases (p x)) [
  | inl on ↦ let k = rw on at h in ((λ _. k.0), All-of_filter P p xs k.1)
  | inr off ↦ let k = rw off at h in ((λ on. cc), All-of_filter P p xs k)
]

All-update_tasks :
    (x worker now : ℕ) (ts : List IngestTask)
    → All
        (λ r. (r.task_id == x) ≡ true → is_running r.status ≡ true)
        (update_tasks (λ r. r.task_id == x) (locked worker now) ts)
All-update_tasks x worker now [] = tt
All-update_tasks x worker now (t ∷ ts) = elim (Bool-cases (t.task_id == x)) [
  | inl on ↦ rw on ((λ _. refl), All-update_tasks x worker now ts)
  | inr off ↦ rw off ((λ on. cc), All-update_tasks x worker now ts)
]

not_both :
    (x : ℕ) (t' : IngestTask) (later : ℕ)
    → ((t'.task_id == x) ≡ true → is_running t'.status ≡ true) × (is_due later t' ≡ true)
    → t'.task_id ≡ x
    → ⊥
not_both x t' later (run, due) e = ground arith

-- The task is a row of the queue.
abbrev pub IsRow : IngestTask → List IngestTask → Type 0
IsRow t [] = ⊥
IsRow t (x ∷ xs) = (x ≡ t) ⊎ IsRow t xs

rows : (ts : List IngestTask) → All (λ x. IsRow x ts) ts
rows [] = tt
rows (x ∷ xs) =
    (inl refl, All-mono (λ y. IsRow y xs) (λ y. IsRow y (x ∷ xs)) xs (λ y h. inr h) (rows xs))

-- It waits for a worker, and its time has come.
pub record IsReady (now : ℕ) (t : IngestTask) : Type 0 where
  pub waits : t.status ≡ pending
  pub time : t.run_after ≤ now

is_due-IsReady : (now : ℕ) (t : IngestTask) → is_due now t ≡ true → IsReady now t
is_due-IsReady now t h = record {
  waits = waiting t.status (ground arith);
  time = leb→le _ _ (ground arith);
}
  where
    waiting : (s : TaskStatus) → is_pending s ≡ true → s ≡ pending
    waiting pending e = refl
    waiting running e = cc
    waiting done e = cc
    waiting failed e = cc
    waiting skipped e = cc
    waiting blocked e = cc

IsReady-is_due : (now : ℕ) (t : IngestTask) → IsReady now t → is_due now t ≡ true
IsReady-is_due now t h = let waits = h.waits in let time = h.time in rw waits (ground (arith, time))

-- A claim, if it finds a task, finds another one than this.
abbrev pub IsOther : ℕ → Option ClaimedTask → Type 0
IsOther id none = Unit
IsOther id (some c) = c.task_id ≢ id

-- The queue that a claim leaves and the task that it hands over, by the row that it took.
pub record IsTaken (ts : List IngestTask) (worker now : ℕ) (ts' : List IngestTask) (c : ClaimedTask)
    : Type 0 where
  pub row : IngestTask
  pub listed : IsRow row ts
  pub ready : IsReady now row
  pub handed : c ≡ record {
    task_id = row.task_id;
    run_id = row.run_id;
    kind = row.kind;
    payload = row.payload;
    attempts = row.attempts + 1;
    max_attempts = row.max_attempts;
  }
  pub least : All (λ r. IsReady now r → c.task_id ≤ r.task_id) ts
  pub table :
      ts'
      ≡ map
          (λ r.
            if r.task_id == c.task_id
            then record r {
              status = running;
              locked_by = some worker;
              locked_at = some now;
              attempts = r.attempts + 1;
            }
            else r)
          ts
  pub once : (worker' later : ℕ) → IsOther c.task_id (claim ts' worker' later).1

abbrev pub IsClaim : List IngestTask → ℕ → ℕ → List IngestTask × Option ClaimedTask → Type 0
IsClaim ts worker now (ts', some c) = IsTaken ts worker now ts' c
IsClaim ts worker now (ts', none) = (ts' ≡ ts) × All (λ r. IsReady now r → ⊥) ts

head_of-insert_by :
    (t : IngestTask) (ts : List IngestTask) → head_of (insert_by by_id t ts) ≡ none → ⊥
head_of-insert_by t [] h = cc
head_of-insert_by t (x ∷ xs) h = elim (Bool-cases (by_id t x)) [
  | inl on ↦ let k = rw on at h in cc
  | inr off ↦ let k = rw off at h in cc
]

none_due :
    (now : ℕ) (ts : List IngestTask) → next_due now ts ≡ none → All (λ r. IsReady now r → ⊥) ts
none_due now [] h = tt
none_due now (t ∷ ts) h = elim (Bool-cases (is_due now t)) [
  | inl on ↦
      let k = rw on at h in absurd (head_of-insert_by t (sort_by by_id (filter (is_due now) ts)) k)
  | inr off ↦
      let k = rw off at h in
      (λ ready. let due = IsReady-is_due now t ready in cc, none_due now ts k)
]

taken_once :
    (ts : List IngestTask) (x worker now worker' later : ℕ)
    → IsOther x (claim (update_tasks (λ r. r.task_id == x) (locked worker now) ts) worker' later).1
unfolding claim
taken_once ts x worker now worker' later =
    let left = update_tasks (λ r. r.task_id == x) (locked worker now) ts in
    elim (Option-cases (next_due later left)) [
      | inl nothing ↦ rw nothing tt
      | inr (t', found) ↦
          let seen =
            next_due-All (λ r. (r.task_id == x) ≡ true → is_running r.status ≡ true) later left
              (All-update_tasks x worker now ts) found in
          rw found (λ e. absurd (not_both x t' later seen e))
    ]

-- A claim that finds a task takes a row that waits and whose time has come, with the least id of these,
-- and hands it over with its attempt counted; the queue then has it running, locked by the worker, with
-- the attempt counted, and every other row as it was. No later claim of that queue, by whatever worker
-- and at whatever time, takes the same task. A claim that finds none leaves the queue as it was, where
-- no row waits whose time has come.
pub claim_once :
    (ts : List IngestTask) (worker now : ℕ) → IsClaim ts worker now (claim ts worker now)
unfolding claim
claim_once ts worker now = elim (Option-cases (next_due now ts)) [
  | inl nothing ↦ rw nothing (refl, none_due now ts nothing)
  | inr (t, found) ↦
      let due = filter (is_due now) ts in
      let (listed, is_ready) = next_due-All (λ r. IsRow r ts) now ts (rows ts) found in
      let least : All (λ r. is_due now r ≡ true → t.task_id ≤ r.task_id) ts =
        All-of_filter (λ r. t.task_id ≤ r.task_id) (is_due now) ts
          (All-of_sort_by (λ r. t.task_id ≤ r.task_id) by_id due
            (head_of-le (sort_by by_id due) (sort_by-IsSorted by_id (λ a b e. ground arith) due)
              found)) in
      rw found (record {
        row = t;
        listed = listed;
        ready = is_due-IsReady now t is_ready;
        handed = refl;
        least =
            All-mono (λ r. is_due now r ≡ true → t.task_id ≤ r.task_id)
              (λ r. IsReady now r → t.task_id ≤ r.task_id) ts
              (λ r le ready. le (IsReady-is_due now r ready)) least;
        table = refl;
        once = λ worker' later. taken_once ts t.task_id worker now worker' later;
      })
]
