-- ===== src/Ingest/Settling.antt =====
-- A run is settled once, when nothing of it is outstanding.
use flight_pricing.Base.{
  ℕ, ◌≡◌, refl, ap, subst, Bool, true, false, none, some, List, [], ◌∷◌, map, ◌==◌, if◌then◌else◌,
  any, arith, inl, inr, Bool-cases,
}
use flight_pricing.Models.Ingest.{
  RunStatus, run_done, run_failed, needs_credentials, IngestRun, Tables, IngestTask,
}
use flight_pricing.Ingest.Queue.{
  is_active, count, is_outstanding, verdict, is_unsettled, settle_run, settled_tables, is_failed,
  finish_run_if_done,
}

is_active-if :
    (a b : Bool)
    → is_active (if a then needs_credentials else if b then run_failed else run_done) ≡ false
is_active-if true b = refl
is_active-if false true = refl
is_active-if false false = refl

pub is_active-verdict : (run_id : ℕ) (ts : List IngestTask) → is_active (verdict run_id ts) ≡ false
is_active-verdict run_id ts = is_active-if _ _

any-settle_run :
    (run_id lost now : ℕ) (status : RunStatus) (rs : List IngestRun)
    → is_active status ≡ false
    → any (is_unsettled run_id) (map (settle_run run_id status lost now) rs) ≡ false
any-settle_run run_id lost now status [] h = refl
any-settle_run run_id lost now status (r ∷ rs) h = elim (Bool-cases (is_unsettled run_id r)) [
  | inl on ↦ rw on (rw h (ground (arith, any-settle_run run_id lost now status rs h)))
  | inr off ↦ rw off (rw off (any-settle_run run_id lost now status rs h))
]

settled_again :
    (db : Tables) (run_id now later : ℕ)
    → (count run_id is_outstanding db.tasks == 0) ≡ true
    → finish_run_if_done (settled_tables db run_id now) run_id later
      ≡ (settled_tables db run_id now, none)
unfolding finish_run_if_done settled_tables
settled_again db run_id now later idle =
    rw
      (
        idle,
        any-settle_run run_id (count run_id (λ t. is_failed t.status) db.tasks) now
            (verdict run_id db.tasks) db.runs (is_active-verdict run_id db.tasks),
      )
      refl

-- Settling a run answers with a status only when nothing of the run is pending or running and the run
-- is still active; the status is never an active one, and settling the run again, at any time, before
-- anything else happens, changes nothing and answers nothing.
pub finish_run_if_done_once :
    (db : Tables) (run_id now later : ℕ) (status : RunStatus) {db' : Tables}
    → finish_run_if_done db run_id now ≡ (db', some status)
    → (count run_id is_outstanding db.tasks ≡ 0)
      × (any (is_unsettled run_id) db.runs ≡ true)
      × (is_active status ≡ false)
      × (finish_run_if_done db' run_id later ≡ (db', none))
unfolding finish_run_if_done settled_tables
finish_run_if_done_once db run_id now later status {db'} h =
    elim (Bool-cases (count run_id is_outstanding db.tasks == 0)) [
      | inr busy ↦ let k = rw busy at h in cc
      | inl idle ↦ elim (Bool-cases (any (is_unsettled run_id) db.runs)) [
        | inr late ↦ let k = rw (idle, late) at h in cc
        | inl active ↦
            let k = rw (idle, active) at h in
            let made : settled_tables db run_id now ≡ db' = ap (λ p. p.0) k in
            let told : verdict run_id db.tasks ≡ status = cc in
            (
              ground arith,
              active,
              subst (λ s. is_active s ≡ false) told (is_active-verdict run_id db.tasks),
              subst (λ d. finish_run_if_done d run_id later ≡ (d, none)) made
                  (settled_again db run_id now later idle),
            )
      ]
    ]
