-- ===== src/Trips/Queued.antt =====
-- A draft is queued once, and never for a trip that is deleted.
use flight_pricing.Base.{
  ℕ, ◌<◌, ◌≡◌, refl, sym, ap, ◌∙◌, subst, true, not, Option, none, some, List, [], ◌∷◌, ◌++◌, ◌==◌,
  all, All, arith, inl, inr, Bool-cases,
}
use flight_pricing.Base.Result.{ok, err, >>=-eq-ok, no_such_trip}
use flight_pricing.Models.{Db}
use flight_pricing.Models.People.{Trip}
use flight_pricing.Models.Ingest.{
  IngestTask, Tables, pending, running, done, failed, blocked, skipped as task_skipped,
  trip_planning, TaskStatus,
}
use flight_pricing.Planning.Itinerary.{trip_row, get_trip}
use flight_pricing.Planning.Itinerary.Fitting.{trip_row-id, get_trip-ok}
use flight_pricing.Ingest.Enqueue.{new_run, task_row, plan_task}
use flight_pricing.Drafting.Task.{Around, skipped, no_trip, draft_live, draft}
use flight_pricing.Trips.Change.{
  store_row, delete_trip, draft_task, is_queued, queue_again, queue_draft,
}

-- The ids that a request draws are new to the queue, whose ids grow.
pub record IsNewTask (q : Tables) (run_id task_id : ℕ) : Type 0 where
  pub new_run : all (λ t. not (t.run_id == run_id)) q.tasks ≡ true
  pub new_task : All (λ t. t.task_id < task_id) q.tasks

-- The trip's newest draft is queued, so that a request adds none.
pub record IsQueued (trip : Trip) (q : Tables) (s : TaskStatus) : Type 0 where
  pub queued : is_queued s ≡ true
  pub again :
      (run_id task_id now : ℕ)
      → queue_again (draft_task q.tasks trip.trip_id) q trip run_id task_id now ≡ (q, s)

-- A draft was put behind the queue, under a run of its own, to wait.
pub record IsAdded (q q' : Tables) (trip_id city_id run_id task_id now : ℕ) (s : TaskStatus)
    : Type 0 where
  pub said : s ≡ pending
  pub task : q'.tasks ≡ q.tasks ++ task_row (plan_task run_id trip_id) task_id now ∷ []
  pub run : q'.runs ≡ q.runs ++ new_run run_id city_id trip_planning now ∷ []

-- Whether a request adds a draft, by how the newest one stands: one that waits or runs is the answer, and
-- one that has ended, however it did, is drafted again.
abbrev pub IsByStatus : TaskStatus → Tables → Tables → TaskStatus → Type 0 → Type 0
IsByStatus pending q q' s added = (q' ≡ q) × (s ≡ pending)
IsByStatus running q q' s added = (q' ≡ q) × (s ≡ running)
IsByStatus done q q' s added = added
IsByStatus failed q q' s added = added
IsByStatus blocked q q' s added = added
IsByStatus task_skipped q q' s added = added

abbrev pub IsByNewest : Option IngestTask → Tables → Tables → TaskStatus → Type 0 → Type 0
IsByNewest none q q' s added = added
IsByNewest (some t) q q' s added = IsByStatus t.status q q' s added

trip_row-store :
    (y : Trip) (ts : List Trip) {x : Trip}
    → trip_row y.trip_id ts ≡ some x
    → trip_row y.trip_id (store_row y ts) ≡ some y
trip_row-store y [] h = cc
trip_row-store y (t ∷ ts) {x} h = elim (Bool-cases (t.trip_id == y.trip_id)) [
  | inl mine ↦ ground (arith, mine)
  | inr other ↦
      let rest = trip_row-store y ts {x = x} (ground (arith, h, other)) in
      ground (arith, other, rest)
]

store_row_twice : (y : Trip) (ts : List Trip) → store_row y (store_row y ts) ≡ store_row y ts
store_row_twice y [] = refl
store_row_twice y (t ∷ ts) = elim (Bool-cases (t.trip_id == y.trip_id)) [
  | inl mine ↦ ground (arith, mine, store_row_twice y ts)
  | inr other ↦ ground (arith, other, store_row_twice y ts)
]

-- A trip that is deleted stays so when it is deleted again, which changes nothing more; a request to draft it
-- is refused as if it were not there, and a draft that was queued before skips it and writes nothing.
pub delete_trip_final :
    (db : Db) (trip_id : ℕ) {db' : Db}
    → delete_trip db trip_id ≡ ok db'
    → (delete_trip db' trip_id ≡ ok db')
      × ((q : Tables) (r k n : ℕ) → queue_draft db' q trip_id r k n ≡ err no_such_trip)
      × ((env : Around) → draft env db' trip_id ≡ ok (db', skipped no_trip))
unfolding delete_trip queue_draft draft draft_live get_trip
delete_trip_final db trip_id {db'} h =
    let (trip, got, made) = >>=-eq-ok (get_trip db trip_id) _ h in
    let row = get_trip-ok db trip_id got in
    let id = trip_row-id trip_id db.trips row in
    let gone = record trip { deleted = true } in
    let after = record db { trips = store_row gone db.trips } in
    let same : after ≡ db' = cc in
    let mine : trip_row trip.trip_id db.trips ≡ some trip =
      ap (λ t. trip_row t db.trips) id ∙ row in
    let found : trip_row trip_id after.trips ≡ some gone =
      ap (λ t. trip_row t after.trips) (sym id) ∙ trip_row-store gone db.trips mine in
    let there : get_trip after trip_id ≡ ok gone = rw (get_trip, found) refl in
    subst
      (λ d.
        (delete_trip d trip_id ≡ ok d)
        × ((q : Tables) (r k n : ℕ) → queue_draft d q trip_id r k n ≡ err no_such_trip)
        × ((env : Around) → draft env d trip_id ≡ ok (d, skipped no_trip)))
      same
      (
        rw (delete_trip, there)
            (ap (λ ts. ok (record db { trips = ts })) (store_row_twice gone db.trips)),
        λ q r k n. rw (queue_draft, there) refl,
        λ env. rw (draft, found) refl,
      )
