-- ===== src/Trips/Created.antt =====
-- What a creation of a trip that succeeds leaves.
use mathlib.Core.List.{append-nil, append_assoc}
use flight_pricing.Base.{
  map, distinct, ℕ, ◌+◌, ◌≡◌, refl, sym, ap, ◌∙◌, subst, Bool, true, not, ◌&&◌, ◌||◌, none, some,
  List, [], ◌∷◌, ◌++◌, ◌==◌, if◌then◌else◌, find, any, all, member, arith, inl, inr, Option-cases,
}
use flight_pricing.Base.Result.{Result, ok, err, Result-cases}
use flight_pricing.Models.{Db}
use flight_pricing.Models.People.{Trip, City, UserTrip}
use flight_pricing.Models.Ingest.{IngestRun, Tables}
use flight_pricing.Planning.Itinerary.{trip_row}
use flight_pricing.Planning.Shortlist.{is_claimed, city_places, claim_city_places}
use flight_pricing.Planning.Shortlist.Listed.{is_claimed-insert_places}
use flight_pricing.Sharing.Members.{access}
use flight_pricing.Ingest.Enqueue.{ensure_city_ingest}
use flight_pricing.Ingest.Enqueue.Single.{
  IsSingle, RunWrite, run_writes, ensure_city_ingest-IsSingle,
}
use flight_pricing.Trips.Create.{
  World, PlanRequest, Found, resolve_cities, new_trip, owner_row, cover_cities, store_trip, Env,
  ensure_runs, store_plan, store_resolved, validate_plan, create_trip,
}
use flight_pricing.Trips.Claimed.{is_place_of, member-city_places}
use flight_pricing.Trips.Resolved.{is_city, is_asked, IsGrown}
use flight_pricing.Trips.Resolved.Ids.{
  IsResolved, IsFirst, resolve_cities-IsResolved, resolve_cities-IsFirst,
}
use flight_pricing.Trips.Refused.{IsUntouched, resolve_cities-IsUntouched}

-- The shortlist after a trip's cities are covered.
is_claimed-cover_cities :
    (t p trip_id now : ℕ) (cs : List ℕ) (db : Db)
    → is_claimed t p (cover_cities db trip_id now cs).trip_places ≡ (
        is_claimed t p db.trip_places
        || (t == trip_id && any (λ c. member p (city_places db c)) cs))
unfolding cover_cities claim_city_places
is_claimed-cover_cities t p trip_id now [] db = ground arith
is_claimed-cover_cities t p trip_id now (c ∷ cs) db =
    let rows = db.trip_cities ++ record { trip_id = trip_id; city_id = c; created_at = now } ∷ [] in
    let next = claim_city_places (record db { trip_cities = rows }) trip_id c in
    ground (
      arith,
      is_claimed-cover_cities t p trip_id now cs next,
      is_claimed-insert_places t p trip_id (city_places db c) db.trip_places,
    )

cover_cities_keeps :
    (trip_id now : ℕ) (cs : List ℕ) (db : Db)
    → ((cover_cities db trip_id now cs).trips ≡ db.trips)
      × ((cover_cities db trip_id now cs).user_trips ≡ db.user_trips)
      × ((cover_cities db trip_id now cs).cities ≡ db.cities)
unfolding cover_cities claim_city_places
cover_cities_keeps trip_id now [] db = (refl, refl, refl)
cover_cities_keeps trip_id now (c ∷ cs) db =
    let rows = db.trip_cities ++ record { trip_id = trip_id; city_id = c; created_at = now } ∷ [] in
    cover_cities_keeps trip_id now cs
      (claim_city_places (record db { trip_cities = rows }) trip_id c)

cover_cities-rows :
    (trip_id now : ℕ) (cs : List ℕ) (db : Db)
    → (cover_cities db trip_id now cs).trip_cities
      ≡ db.trip_cities ++ map (λ c. record { trip_id = trip_id; city_id = c; created_at = now }) cs
unfolding cover_cities claim_city_places
cover_cities-rows trip_id now [] db = sym (append-nil db.trip_cities)
cover_cities-rows trip_id now (c ∷ cs) db =
    let rows = db.trip_cities ++ record { trip_id = trip_id; city_id = c; created_at = now } ∷ [] in
    cover_cities-rows trip_id now cs
      (claim_city_places (record db { trip_cities = rows }) trip_id c)
    ∙ append_assoc db.trip_cities (record { trip_id = trip_id; city_id = c; created_at = now } ∷ [])
        (map (λ c. record { trip_id = trip_id; city_id = c; created_at = now }) cs)

access-new :
    (u t user_id trip_id now : ℕ) (rs : List UserTrip)
    → all (λ r. not (r.trip_id == trip_id)) rs ≡ true
    → access u t (rs ++ owner_row user_id trip_id now ∷ []) ≡ (
        if t == trip_id
        then (if u == user_id then some (owner_row user_id trip_id now) else none)
        else access u t rs)
access-new u t user_id trip_id now [] h = ground arith
access-new u t user_id trip_id now (r ∷ rs) h =
    ground (arith, h, access-new u t user_id trip_id now rs)

trip_row-new :
    (trip : Trip) (ts : List Trip)
    → all (λ t. not (t.trip_id == trip.trip_id)) ts ≡ true
    → trip_row trip.trip_id (ts ++ trip ∷ []) ≡ some trip
trip_row-new trip [] h = ground arith
trip_row-new trip (t ∷ ts) h = ground (arith, h, trip_row-new trip ts)

any-eq : (f g : ℕ → Bool) (cs : List ℕ) → ((c : ℕ) → f c ≡ g c) → any f cs ≡ any g cs
any-eq f g [] h = refl
any-eq f g (c ∷ cs) h = ground (arith, h c, any-eq f g cs h)

city_places-same :
    (d d' : Db) (c : ℕ)
    → d'.places ≡ d.places
    → d'.place_queries ≡ d.place_queries
    → city_places d' c ≡ city_places d c
city_places-same d d' c places queries = rw (places, queries) refl

-- What others commit while the runs are asked for: two lists of writes for each city.
abbrev pub with_writes : Env → (ℕ → List RunWrite) → (ℕ → List RunWrite) → Env
with_writes env writes later = record env {
  between = λ k q. run_writes q (writes k);
  after = λ k q. run_writes q (later k);
}

ensure_runs-IsSingle :
    (env : Env) (writes later : ℕ → List RunWrite) (cities : List City) (cs : List ℕ) (q : Tables)
    (k : ℕ)
    → IsSingle q.runs
    → IsSingle (ensure_runs (with_writes env writes later) cities q k cs).0.runs
unfolding ensure_runs
ensure_runs-IsSingle env writes later cities [] q k v = v
ensure_runs-IsSingle env writes later cities (c ∷ cs) q k v =
    elim (Option-cases (find (λ r. r.city_id == c) cities)) [
      | inl missing ↦
          rw (ensure_runs, missing) (ensure_runs-IsSingle env writes later cities cs q (k + 1) v)
      | inr (city, found) ↦
          let asked =
            ensure_city_ingest q (λ d. run_writes d (writes k)) (λ d. run_writes d (later k)) city
              env.refresh (env.run_ids k) (env.task_ids k) env.now in
          let single =
            ensure_city_ingest-IsSingle q (writes k) (later k) city env.refresh (env.run_ids k)
              (env.task_ids k) env.now v in
          rw (ensure_runs, found)
            (ensure_runs-IsSingle env writes later cities cs asked.0 (k + 1) single.0)
    ]

-- A trip is stored for its creator alone, who owns it, with a row for each city of the request and every
-- place of these cities on its list.
pub record IsCreated (lookup : ℕ → Found) (env : Env) (w w' : World) (user_id : ℕ)
    (body : PlanRequest) : Type 0 where
  pub anchor : ℕ
  pub others : List ℕ
  pub all_cities : all (λ p. is_city (lookup p)) body.city_place_ids ≡ true
  pub first : IsFirst lookup body.city_place_ids anchor
  pub requested : (c : ℕ) → member c (anchor ∷ others) ≡ is_asked lookup body.city_place_ids c
  pub once : distinct (anchor ∷ others) ≡ true
  pub covered :
      w'.db.trip_cities
      ≡ w.db.trip_cities
        ++ map
            (λ c. record { trip_id = env.trip_id; city_id = c; created_at = env.now })
            (anchor ∷ others)
  pub grown : IsGrown (is_asked lookup body.city_place_ids) w.db.cities w'.db.cities
  pub stored : trip_row env.trip_id w'.db.trips ≡ some (new_trip env.trip_id anchor body)
  pub owned :
      (u t : ℕ)
      → access u t w'.db.user_trips ≡ (
          if t == env.trip_id
          then (if u == user_id then some (owner_row user_id env.trip_id env.now) else none)
          else access u t w.db.user_trips)
  pub listed :
      (t p : ℕ)
      → is_claimed t p w'.db.trip_places ≡ (
          is_claimed t p w.db.trip_places
          || (t == env.trip_id && any (λ c. is_place_of w.db c p) (anchor ∷ others)))
  pub single : IsSingle w'.queue.runs

-- The trip's id is new.
pub record IsNew (trip_id : ℕ) (w : World) : Type 0 where
  pub no_trip : all (λ t. not (t.trip_id == trip_id)) w.db.trips ≡ true
  pub no_access : all (λ r. not (r.trip_id == trip_id)) w.db.user_trips ≡ true

same_world :
    (w : World) {r r' : Result (List ℕ)} → r ≡ r' → ◌≡◌ {A = World × Result (List ℕ)} (w, r) (w, r')
same_world w e = ap (λ x. (w, x)) e

store_plan-IsCreated :
    (lookup : ℕ → Found) (env : Env) (writes later : ℕ → List RunWrite) (w w₁ : World) (user_id : ℕ)
    (body : PlanRequest) (c : ℕ) (cs : List ℕ)
    → IsResolved lookup body.city_place_ids [] (c ∷ cs)
    → IsFirst lookup body.city_place_ids c
    → IsNew env.trip_id w
    → IsSingle w.queue.runs
    → IsUntouched (is_asked lookup body.city_place_ids) w w₁
    → IsCreated lookup env w
        (store_plan (with_writes env writes later) (λ d. d) w₁ user_id body c cs).0
        user_id
        body
unfolding store_plan store_trip
store_plan-IsCreated lookup env writes later w w₁ user_id body c cs asked lead new single v =
    let trip = new_trip env.trip_id c body in
    let opened = record w₁.db {
      trips = w₁.db.trips ++ trip ∷ [];
      user_trips = w₁.db.user_trips ++ owner_row user_id env.trip_id env.now ∷ [];
    } in
    let keeps = cover_cities_keeps env.trip_id env.now (c ∷ cs) opened in
    record {
      anchor = c;
      others = cs;
      all_cities = asked.cities;
      first = lead;
      requested = asked.members;
      once = asked.keys refl;
      covered =
          cover_cities-rows env.trip_id env.now (c ∷ cs) opened
          ∙ ap
              (λ rs.
                rs
                ++ map (λ d. record { trip_id = env.trip_id; city_id = d; created_at = env.now })
                    (c ∷ cs))
              v.same_cover;
      grown =
          subst (IsGrown (is_asked lookup body.city_place_ids) w.db.cities) (sym keeps.2) v.cities;
      stored =
          ap (trip_row env.trip_id) keeps.0
          ∙ trip_row-new trip w₁.db.trips (rw v.same_trips new.no_trip);
      owned = λ u t.
          ap (access u t) keeps.1
          ∙ access-new u t user_id env.trip_id env.now w₁.db.user_trips
              (rw v.same_access new.no_access)
          ∙ ap
              (λ rs.
                if t == env.trip_id
                then (if u == user_id then some (owner_row user_id env.trip_id env.now) else none)
                else access u t rs)
              v.same_access;
      listed = λ t p.
          is_claimed-cover_cities t p env.trip_id env.now (c ∷ cs) opened
          ∙ ap
              (λ rs.
                is_claimed t p rs
                || (t == env.trip_id && any (λ d. member p (city_places opened d)) (c ∷ cs)))
              v.same_list
          ∙ ap (λ b. is_claimed t p w.db.trip_places || (t == env.trip_id && b))
              (any-eq (λ d. member p (city_places opened d)) (λ d. is_place_of w.db d p) (c ∷ cs)
                (λ d.
                  ap (member p) (city_places-same w.db opened d v.same_places v.same_queries)
                  ∙ member-city_places w.db d p w.db.places));
      single =
          ensure_runs-IsSingle env writes later _ (c ∷ cs) w₁.queue 0
            (subst IsSingle (sym v.same_runs) single);
    }

store_resolved-ok :
    (lookup : ℕ → Found) (env : Env) (writes later : ℕ → List RunWrite) (w w₁ w' : World)
    (user_id : ℕ) (body : PlanRequest) (found : Result (List ℕ)) (runs : List IngestRun)
    → IsNew env.trip_id w
    → IsSingle w.queue.runs
    → IsUntouched (is_asked lookup body.city_place_ids) w w₁
    → ((out : List ℕ) → found ≡ ok out → IsResolved lookup body.city_place_ids [] out)
    → ((c : ℕ) (cs : List ℕ) → found ≡ ok (c ∷ cs) → IsFirst lookup body.city_place_ids c)
    → store_resolved (with_writes env writes later) (λ d. d) user_id body (w₁, found)
      ≡ (w', ok runs)
    → IsCreated lookup env w w' user_id body
unfolding store_plan
store_resolved-ok lookup env writes later w w₁ w' user_id body (err e) runs new single v asked lead
      h =
    let stored : ◌≡◌ {A = Result (List IngestRun)} (err e) (ok runs) = ap (λ r. r.1) h in cc
store_resolved-ok lookup env writes later w w₁ w' user_id body (ok []) runs new single v asked lead
      h =
    cc
store_resolved-ok lookup env writes later w w₁ w' user_id body (ok (c ∷ cs)) runs new single v asked
      lead h =
    subst (λ x. IsCreated lookup env w x user_id body) (ap (λ r. r.0) h)
      (store_plan-IsCreated lookup env writes later w w₁ user_id body c cs (asked (c ∷ cs) refl)
        (lead c cs refl) new single v)

-- A creation that succeeds, under an id that is new and where no city had two active ingest runs: every
-- place of the request was found to be a city, and the trip covers exactly these cities, each by one new
-- row, the first place's as its anchor; it is stored as the request describes it; its creator owns it,
-- nobody else can see it, and access to the other trips is as it was; its list has exactly the places of
-- these cities, and the other lists are as they were; the cities that were there are, with what was known
-- of them; and still no city has two active ingest runs, whatever requests and workers commit while the
-- cities' runs are asked for. Of a request that seeds nothing.
pub create_trip-IsCreated :
    (env : Env) (writes later : ℕ → List RunWrite) (lookup : ℕ → Found) (w : World)
    (today user_id : ℕ) (body : PlanRequest) {w' : World} {runs : List IngestRun}
    → IsNew env.trip_id w
    → IsSingle w.queue.runs
    → create_trip (with_writes env writes later) lookup (λ d. d) w today user_id body
      ≡ (w', ok runs)
    → IsCreated lookup env w w' user_id body
unfolding create_trip
create_trip-IsCreated env writes later lookup w today user_id body {w'} {runs} new single h =
    elim (Result-cases (validate_plan today body)) [
      | inl (e, invalid) ↦
          let k : ◌≡◌ {A = World × Result (List IngestRun)} (w, err e) (w', ok runs) =
            rw (create_trip, invalid) at h in
          cc
      | inr (u, valid) ↦
          let found = resolve_cities w lookup [] body.city_place_ids in
          let k : store_resolved (with_writes env writes later) (λ d. d) user_id body found
              ≡ (w', ok runs) =
            rw (create_trip, valid) at h in
          store_resolved-ok lookup env writes later w found.0 w' user_id body found.1 runs new
            single (resolve_cities-IsUntouched lookup body.city_place_ids w [])
            (λ out e.
              resolve_cities-IsResolved lookup body.city_place_ids w [] {w' = found.0}
                (same_world found.0 e))
            (λ c cs e.
              resolve_cities-IsFirst lookup body.city_place_ids w {w' = found.0}
                (same_world found.0 e))
            k
    ]
