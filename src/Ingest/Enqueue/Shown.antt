-- ===== src/Ingest/Enqueue/Shown.antt =====
-- A trip shows an active run exactly where one of its cities has one.
use flight_pricing.Base.{
  ℕ, ◌≡◌, refl, sym, ap, ◌∙◌, Bool, true, false, ◌&&◌, ◌||◌, Option, none, some, List, [], ◌∷◌,
  opt_eq, any, find, filter, arith, inl, inr, Option-cases,
}
use flight_pricing.Base.Sort.{sort_by, insert_by}
use flight_pricing.Models.Ingest.{IngestRun}
use flight_pricing.Ingest.Queue.{is_active}
use flight_pricing.Ingest.Enqueue.{
  is_ingest, is_active_of, later_run, first_run, latest_run, add_run, runs_of, is_credentials_run,
  is_done_run, or_else, trip_ingest,
}

abbrev pub shows_active : Option IngestRun → Bool
shows_active none = false
shows_active (some r) = is_active r.status

first_run-insert_by :
    (r : IngestRun) (rs : List IngestRun)
    → shows_active (first_run (insert_by later_run r rs))
      ≡ (is_active r.status || shows_active (first_run rs))
first_run-insert_by r [] = ground arith
first_run-insert_by r (q ∷ rs) = ground arith

first_run-sort_by :
    (rs : List IngestRun)
    → shows_active (first_run (sort_by later_run rs)) ≡ any (λ r. is_active r.status) rs
first_run-sort_by [] = refl
first_run-sort_by (r ∷ rs) =
    first_run-insert_by r (sort_by later_run rs)
    ∙ ap (λ b. is_active r.status || b) (first_run-sort_by rs)

any-filter :
    (c : ℕ) (rs : List IngestRun)
    → any (λ r. is_active r.status) (filter (λ r. opt_eq r.city_id (some c) && is_ingest r) rs)
      ≡ any (is_active_of c) rs
any-filter c [] = refl
any-filter c (r ∷ rs) = ground (arith, any-filter c rs)

shows_active-latest_run :
    (rs : List IngestRun) (c : ℕ) → shows_active (latest_run rs c) ≡ any (is_active_of c) rs
unfolding latest_run
shows_active-latest_run rs c =
    first_run-sort_by (filter (λ r. opt_eq r.city_id (some c) && is_ingest r) rs) ∙ any-filter c rs

any-add_run :
    (o : Option IngestRun) (rest : List IngestRun)
    → any (λ r. is_active r.status) (add_run o rest)
      ≡ (shows_active o || any (λ r. is_active r.status) rest)
any-add_run none rest = ground arith
any-add_run (some r) rest = refl

any-runs_of :
    (rs : List IngestRun) (cs : List ℕ)
    → any (λ r. is_active r.status) (runs_of (latest_run rs) cs)
      ≡ any (λ c. any (is_active_of c) rs) cs
any-runs_of rs [] = refl
any-runs_of rs (c ∷ cs) =
    any-add_run (latest_run rs c) (runs_of (latest_run rs) cs)
    ∙ ap (λ b. b || any (λ r. is_active r.status) (runs_of (latest_run rs) cs))
        (shows_active-latest_run rs c)
    ∙ ap (λ b. any (is_active_of c) rs || b) (any-runs_of rs cs)

shows_active-found :
    (p : IngestRun → Bool) (rs : List IngestRun)
    → ((r : IngestRun) → p r ≡ true → is_active r.status ≡ false)
    → shows_active (find p rs) ≡ false
shows_active-found p [] h = refl
shows_active-found p (r ∷ rs) h = ground (arith, h r, shows_active-found p rs h)

shows_active-find :
    (rs : List IngestRun)
    → shows_active (find (λ r. is_active r.status) rs) ≡ any (λ r. is_active r.status) rs
shows_active-find [] = refl
shows_active-find (r ∷ rs) = ground (arith, shows_active-find rs)

find-any :
    (rs : List IngestRun)
    → find (λ r. is_active r.status) rs ≡ none
    → shows_active (first_run rs) ≡ false
find-any [] h = refl
find-any (r ∷ rs) h = ground arith

shows_active-or_else :
    (a b : Option IngestRun)
    → shows_active a ≡ false
    → shows_active b ≡ false
    → shows_active (or_else a b) ≡ false
shows_active-or_else none b h k = k
shows_active-or_else (some r) b h k = h

-- The run whose status a trip shows is an active one exactly when one of the trip's cities has an
-- active ingest run, whichever run of the city was asked for last.
pub shows_active-trip_ingest :
    (rs : List IngestRun) (city_ids : List ℕ)
    → shows_active (trip_ingest (latest_run rs) city_ids)
      ≡ any (λ c. any (is_active_of c) rs) city_ids
unfolding trip_ingest
shows_active-trip_ingest rs cs =
    let mine = runs_of (latest_run rs) cs in
    let shown = shows_active-find mine ∙ any-runs_of rs cs in
    elim (Option-cases (find (λ r. is_active r.status) mine)) [
      | inr (r, found) ↦ rw found (sym (ap shows_active found) ∙ shown)
      | inl none_active ↦ rw none_active (
          shows_active-or_else (find (λ r. is_credentials_run r.status) mine) _
            (shows_active-found (λ r. is_credentials_run r.status) mine (λ r h. ground arith))
            (shows_active-or_else (find (λ r. is_done_run r.status) mine) (first_run mine)
              (shows_active-found (λ r. is_done_run r.status) mine (λ r h. ground arith))
              (find-any mine none_active))
          ∙ sym (ap shows_active none_active)
          ∙ shown)
    ]
