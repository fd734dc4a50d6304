-- ===== src/Ingest/Leases.antt =====
-- A task is locked exactly while it runs, whoever claims, settles or reaps it and in whatever order.
use flight_pricing.Base.{
  ℕ, ◌≡◌, refl, Bool, true, false, not, ◌&&◌, Option, none, some, List, [], ◌∷◌, if◌then◌else◌, all,
  arith, inl, inr, Bool-cases,
}
use flight_pricing.Models.Ingest.{ErrorCode, IngestTask}
use flight_pricing.Ingest.Queue.{
  is_running, update_tasks, next_due, locked, claim_row, claim, returned, reap_expired, completed,
  complete, parked, block, deferred, defer, waiting, reschedule, given_up, fail,
}

abbrev pub is_held : Option ℕ → Bool
is_held none = false
is_held (some n) = true

-- A lock's holder and its lease are there exactly while the task runs.
abbrev pub is_leased : IngestTask → Bool
is_leased t =
    if is_running t.status
    then is_held t.locked_by && is_held t.locked_at
    else not (is_held t.locked_by) && not (is_held t.locked_at)

-- The writes of the queue to its tasks, each a transaction of some worker.
pub data Write : Type 0 where
  claims : ℕ → ℕ → Write
  reaps : ℕ → ℕ → Write
  completes : ℕ → ℕ → Write
  blocks : ℕ → ℕ → Write
  defers : ℕ → ErrorCode → ℕ → Write
  reschedules : ℕ → ℕ → Write
  fails : ℕ → ErrorCode → ℕ → Write

unfoldable pub write : List IngestTask → Write → List IngestTask
unfolding claim reap_expired complete block defer reschedule fail
write ts (claims worker now) = (claim ts worker now).0
write ts (reaps lease now) = (reap_expired ts lease now).0
write ts (completes task_id now) = complete ts task_id now
write ts (blocks task_id now) = block ts task_id now
write ts (defers task_id code when) = defer ts task_id code when
write ts (reschedules task_id when) = reschedule ts task_id when
write ts (fails task_id code now) = fail ts task_id code now

abbrev pub write_all : List IngestTask → List Write → List IngestTask
write_all ts [] = ts
write_all ts (w ∷ ws) = write_all (write ts w) ws

pub all-update_tasks :
    (p test : IngestTask → Bool) (change : IngestTask → IngestTask) (ts : List IngestTask)
    → ((t : IngestTask) → p t ≡ true → p (change t) ≡ true)
    → all p ts ≡ true
    → all p (update_tasks test change ts) ≡ true
all-update_tasks p test change [] keep h = refl
all-update_tasks p test change (t ∷ ts) keep h = elim (Bool-cases (test t)) [
  | inl on ↦
      rw on (rw (keep t (ground arith)) (all-update_tasks p test change ts keep (ground arith)))
  | inr off ↦ rw off (ground (arith, all-update_tasks p test change ts keep))
]

claim_row-is_leased :
    (ts : List IngestTask) (worker now : ℕ) (found : Option IngestTask)
    → all is_leased ts ≡ true
    → all is_leased (claim_row ts worker now found).0 ≡ true
claim_row-is_leased ts worker now none h = h
claim_row-is_leased ts worker now (some t) h =
    all-update_tasks is_leased _ (locked worker now) ts (λ t h. refl) h

write-is_leased :
    (ts : List IngestTask) (w : Write) → all is_leased ts ≡ true → all is_leased (write ts w) ≡ true
unfolding write claim reap_expired complete block defer reschedule fail
write-is_leased ts (claims worker now) h = claim_row-is_leased ts worker now (next_due now ts) h
write-is_leased ts (reaps lease now) h = all-update_tasks is_leased _ returned ts (λ t h. refl) h
write-is_leased ts (completes x now) h =
    all-update_tasks is_leased _ (completed now) ts (λ t h. refl) h
write-is_leased ts (blocks x now) h = all-update_tasks is_leased _ (parked now) ts (λ t h. refl) h
write-is_leased ts (defers x code when) h =
    all-update_tasks is_leased _ (deferred code when) ts (λ t h. refl) h
write-is_leased ts (reschedules x when) h =
    all-update_tasks is_leased _ (waiting when) ts (λ t h. refl) h
write-is_leased ts (fails x code now) h =
    all-update_tasks is_leased _ (given_up code now) ts (λ t h. refl) h

-- Where every task is locked exactly while it runs, this stays so after any sequence of claims,
-- reaps and settlements of any workers, late settlements of reaped tasks among them.
pub write_all-is_leased :
    (ts : List IngestTask) (ws : List Write)
    → all is_leased ts ≡ true
    → all is_leased (write_all ts ws) ≡ true
write_all-is_leased ts [] h = h
write_all-is_leased ts (w ∷ ws) h = write_all-is_leased (write ts w) ws (write-is_leased ts w h)
