-- ===== src/Trips/Refused.antt =====
-- What a refused creation of a trip leaves.
use flight_pricing.Base.{ℕ, Bool, ◌≡◌, refl, ap, subst, List, [], ◌∷◌, inl, inr}
use flight_pricing.Base.Result.{Result, ok, err, Error, Result-cases}
use flight_pricing.Models.{Db}
use flight_pricing.Trips.Resolved.{
  is_asked, IsGrown, IsDated, IsGrown-refl, IsDated-refl, Found-cases, resolve_cities-IsGrown,
}
use flight_pricing.Trips.Create.{
  World, PlanRequest, Found, with_city, add_id, resolve_cities, Env, store_plan, store_resolved,
  validate_plan, create_trip,
}

-- A request that only asked for cities: those that were there are, with what was known of them and their
-- last ingests; nobody's trips, lists or blocks, and no run or task, changed.
pub record IsUntouched (asked : ℕ → Bool) (w w' : World) : Type 0 where
  pub cities : IsGrown asked w.db.cities w'.db.cities
  pub ingests : IsDated asked w.queue.ingested w'.queue.ingested
  pub same_users : w'.db.users ≡ w.db.users
  pub same_expenses : w'.db.expenses ≡ w.db.expenses
  pub same_settlements : w'.db.settlements ≡ w.db.settlements
  pub same_days : w'.db.trip_days ≡ w.db.trip_days
  pub same_dismissals : w'.db.trip_dismissals ≡ w.db.trip_dismissals
  pub same_trips : w'.db.trips ≡ w.db.trips
  pub same_access : w'.db.user_trips ≡ w.db.user_trips
  pub same_cover : w'.db.trip_cities ≡ w.db.trip_cities
  pub same_list : w'.db.trip_places ≡ w.db.trip_places
  pub same_items : w'.db.items ≡ w.db.items
  pub same_places : w'.db.places ≡ w.db.places
  pub same_queries : w'.db.place_queries ≡ w.db.place_queries
  pub same_runs : w'.queue.runs ≡ w.queue.runs
  pub same_tasks : w'.queue.tasks ≡ w.queue.tasks

pub untouched : (asked : ℕ → Bool) (w : World) → IsUntouched asked w w
untouched asked w = record {
  cities = IsGrown-refl asked w.db.cities;
  ingests = IsDated-refl asked w.queue.ingested;
  same_users = refl;
  same_expenses = refl;
  same_settlements = refl;
  same_days = refl;
  same_dismissals = refl;
  same_trips = refl;
  same_access = refl;
  same_cover = refl;
  same_list = refl;
  same_items = refl;
  same_places = refl;
  same_queries = refl;
  same_runs = refl;
  same_tasks = refl;
}

-- The loop changes the cities and their dates, and nothing else.
rest_kept :
    (lookup : ℕ → Found) (ps : List ℕ) (w : World) (ids : List ℕ)
    → let w' = (resolve_cities w lookup ids ps).0 in
      w' ≡ record {
        db = record w.db { cities = w'.db.cities };
        queue = record w.queue { ingested = w'.queue.ingested };
      }
unfolding resolve_cities
rest_kept lookup [] w ids = refl
rest_kept lookup (p ∷ ps) w ids = elim (Found-cases (lookup p)) [
  | inl (inl e) ↦ rw (resolve_cities, e) refl
  | inl (inr e) ↦ rw (resolve_cities, e) refl
  | inr (d, e) ↦
      rw (resolve_cities, e) (rest_kept lookup ps (with_city w d) (add_id d.place_id ids))
]

-- So every other table is as it was.
loop-IsUntouched :
    (asked : ℕ → Bool) (lookup : ℕ → Found) (ps : List ℕ) (w : World) (ids : List ℕ)
    → let w' = (resolve_cities w lookup ids ps).0 in
      IsGrown asked w.db.cities w'.db.cities
      → IsDated asked w.queue.ingested w'.queue.ingested
      → IsUntouched asked w w'
loop-IsUntouched asked lookup ps w ids cities ingests =
    let rest = rest_kept lookup ps w ids in
    record {
      cities = cities;
      ingests = ingests;
      same_users = ap (λ x. x.db.users) rest;
      same_expenses = ap (λ x. x.db.expenses) rest;
      same_settlements = ap (λ x. x.db.settlements) rest;
      same_days = ap (λ x. x.db.trip_days) rest;
      same_dismissals = ap (λ x. x.db.trip_dismissals) rest;
      same_trips = ap (λ x. x.db.trips) rest;
      same_access = ap (λ x. x.db.user_trips) rest;
      same_cover = ap (λ x. x.db.trip_cities) rest;
      same_list = ap (λ x. x.db.trip_places) rest;
      same_items = ap (λ x. x.db.items) rest;
      same_places = ap (λ x. x.db.places) rest;
      same_queries = ap (λ x. x.db.place_queries) rest;
      same_runs = ap (λ x. x.queue.runs) rest;
      same_tasks = ap (λ x. x.queue.tasks) rest;
    }

pub resolve_cities-IsUntouched :
    (lookup : ℕ → Found) (ps : List ℕ) (w : World) (ids : List ℕ)
    → IsUntouched (is_asked lookup ps) w (resolve_cities w lookup ids ps).0
resolve_cities-IsUntouched lookup ps w ids =
    let asked = is_asked lookup ps in
    let grown = resolve_cities-IsGrown lookup ps w ids asked (λ c h. h) in
    loop-IsUntouched asked lookup ps w ids grown.0 grown.1

store_resolved-err :
    (asked : ℕ → Bool) (env : Env) (seed : Db → Db) (user_id : ℕ) (body : PlanRequest)
    (w w₁ w' : World) (found : Result (List ℕ)) (problem : Error)
    → IsUntouched asked w w₁
    → store_resolved env seed user_id body (w₁, found) ≡ (w', err problem)
    → IsUntouched asked w w'
unfolding store_plan
store_resolved-err asked env seed user_id body w w₁ w' (err e) problem v h =
    subst (IsUntouched asked w) (ap (λ r. r.0) h) v
store_resolved-err asked env seed user_id body w w₁ w' (ok []) problem v h =
    subst (IsUntouched asked w) (ap (λ r. r.0) h) v
store_resolved-err asked env seed user_id body w w₁ w' (ok (c ∷ cs)) problem v h =
    let stored : ok ((store_plan env seed w₁ user_id body c cs).1) ≡ err problem =
      ap (λ r. r.1) h in
    cc

-- A creation that is refused, for its dates, or since a place is no city or could not be looked up, leaves
-- every trip, membership, list and block, every account, expense and payment, and every run and task, as
-- it was. Each city that was there is, with its name, the fields that were known and the time of its last
-- ingest; only a city that a place of the request is found to be may gain missing fields, or be added, as
-- one that was never ingested.
pub create_trip-IsUntouched :
    (env : Env) (lookup : ℕ → Found) (seed : Db → Db) (w : World) (today user_id : ℕ)
    (body : PlanRequest) {w' : World} {problem : Error}
    → create_trip env lookup seed w today user_id body ≡ (w', err problem)
    → IsUntouched (is_asked lookup body.city_place_ids) w w'
unfolding create_trip
create_trip-IsUntouched env lookup seed w today user_id body {w'} {problem} h =
    let asked = is_asked lookup body.city_place_ids in
    elim (Result-cases (validate_plan today body)) [
      | inl (e, invalid) ↦
          let k : (w, err e) ≡ (w', err problem) = rw (create_trip, invalid) at h in
          subst (IsUntouched asked w) (ap (λ r. r.0) k) (untouched asked w)
      | inr (u, valid) ↦
          let found = resolve_cities w lookup [] body.city_place_ids in
          let k : store_resolved env seed user_id body found ≡ (w', err problem) =
            rw (create_trip, valid) at h in
          store_resolved-err asked env seed user_id body w found.0 w' found.1 problem
            (resolve_cities-IsUntouched lookup body.city_place_ids w []) k
    ]
