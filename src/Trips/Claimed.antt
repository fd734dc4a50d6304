-- ===== src/Trips/Claimed.antt =====
-- What a run that ends adds to the shortlists.
use flight_pricing.Base.{
  ℕ, ◌≡◌, refl, ap, sym, ◌∙◌, map, filter, ==_iff, inl, inr, Bool-cases, Bool, true, false, ◌&&◌,
  ◌||◌, some, List, [], ◌∷◌, ◌==◌, find, any, member, arith,
}
use flight_pricing.Models.{Db}
use flight_pricing.Models.Ingest.{IngestRun}
use flight_pricing.Models.Itinerary.{Place, PlaceQuery, TripCity}
use flight_pricing.Planning.Shortlist.{
  is_claimed, resolved, is_of_city, city_places, claim_city_places, city_trips,
}
use flight_pricing.Planning.Shortlist.Listed.{
  is_claimed-insert_places, is_standing, is_stop, member-city_trips,
}
use flight_pricing.Ingest.Queue.{is_active}
use flight_pricing.Ingest.Enqueue.{is_ingest}
use flight_pricing.Trips.Change.{cities_of, claim_cities, claim_trips, claim_after_ingest}

-- The place is one of these cities'.
abbrev pub is_in : Db → ℕ → List ℕ → Bool
is_in db p = any (λ c. member p (city_places db c))

is_claimed-claim_cities :
    (t p u : ℕ) (cs : List ℕ) (db : Db)
    → is_claimed t p (claim_cities db u cs).trip_places
      ≡ (is_claimed t p db.trip_places || (t == u && is_in db p cs))
unfolding claim_city_places
is_claimed-claim_cities t p u [] db = ground arith
is_claimed-claim_cities t p u (c ∷ cs) db = ground (
  arith,
  is_claimed-claim_cities t p u cs (claim_city_places db u c),
  is_claimed-insert_places t p u (city_places db c) db.trip_places,
)

-- A claim writes no other table.
claim_cities_keeps :
    (u : ℕ) (cs : List ℕ) (db : Db)
    → claim_cities db u cs ≡ record db { trip_places = (claim_cities db u cs).trip_places }
unfolding claim_city_places
claim_cities_keeps u [] db = refl
claim_cities_keeps u (c ∷ cs) db = claim_cities_keeps u cs (claim_city_places db u c)

-- One of these trips lists the place by one of its cities.
abbrev pub gains : Db → ℕ → ℕ → ℕ → List ℕ → Bool
gains db c t p = any (λ u. t == u && is_in db p (cities_of db u c))

is_claimed-claim_trips :
    (t p c : ℕ) (ts : List ℕ) (db : Db)
    → is_claimed t p (claim_trips db c ts).trip_places
      ≡ (is_claimed t p db.trip_places || gains db c t p ts)
is_claimed-claim_trips t p c [] db = ground arith
is_claimed-claim_trips t p c (u ∷ ts) db =
    let next = claim_cities db u (cities_of db u c) in
    let rest = is_claimed-claim_trips t p c ts next in
    let here = is_claimed-claim_cities t p u (cities_of db u c) db in
    let same : gains next c t p ts ≡ gains db c t p ts =
      ap (λ d. gains d c t p ts) (claim_cities_keeps u (cities_of db u c) db) in
    ground (arith, rest, here, same)

-- The place is filed under the city, or one of the names that were looked up for the city is its.
abbrev pub is_place_of : Db → ℕ → ℕ → Bool
is_place_of db c p =
    any
      (λ (q : Place).
        q.place_id == p
        && (q.city_id == c
            || any (λ (n : PlaceQuery). n.city_id == c && q.place_id == n.place_id)
                db.place_queries))
      db.places

member-resolved :
    (c x : ℕ) (qs : List PlaceQuery)
    → member x (resolved c qs) ≡ any (λ n. n.city_id == c && x == n.place_id) qs
member-resolved c x [] = refl
member-resolved c x (n ∷ qs) = ground (arith, member-resolved c x qs)

pub member-city_places :
    (db : Db) (c p : ℕ) (rs : List Place)
    → member p (map (λ (q : Place). q.place_id) (filter (is_of_city db c) rs))
      ≡ any
          (λ q.
            q.place_id == p
            && (q.city_id == c
                || any (λ n. n.city_id == c && q.place_id == n.place_id) db.place_queries))
          rs
member-city_places db c p [] = refl
member-city_places db c p (q ∷ rs) =
    ground (arith, member-city_places db c p rs, member-resolved c q.place_id db.place_queries)

-- One of the trip's rows has a city that the place is of.
abbrev pub is_of_stop : Db → ℕ → ℕ → List TripCity → Bool
is_of_stop db t p = any (λ r. r.trip_id == t && is_place_of db r.city_id p)

is_in-rows :
    (db : Db) (t p : ℕ) (rs : List TripCity)
    → is_in db p (map (λ (r : TripCity). r.city_id) (filter (λ r. r.trip_id == t) rs))
      ≡ is_of_stop db t p rs
is_in-rows db t p [] = refl
is_in-rows db t p (r ∷ rs) =
    ground (arith, is_in-rows db t p rs, member-city_places db r.city_id p db.places)

-- A trip that has a row is not given the city that the run was for in place of its own.
is_in-cities_of :
    (db : Db) (t c p : ℕ)
    → is_stop db t c ≡ true
    → is_in db p (cities_of db t c) ≡ is_of_stop db t p db.trip_cities
is_in-cities_of db t c p h =
    own (map (λ (r : TripCity). r.city_id) (filter (λ r. r.trip_id == t) db.trip_cities))
      (has_row db.trip_cities h) (is_in-rows db t p db.trip_cities)
  where
    has_row :
        (rs : List TripCity)
        → any (λ (r : TripCity). r.trip_id == t && r.city_id == c) rs ≡ true
        → member c (map (λ (r : TripCity). r.city_id) (filter (λ r. r.trip_id == t) rs)) ≡ true
    has_row [] e = cc
    has_row (r ∷ rs) e = ground (arith, has_row rs)

    own :
        (cs : List ℕ)
        → member c cs ≡ true
        → is_in db p cs ≡ is_of_stop db t p db.trip_cities
        → is_in db p (elim cs [ [] ↦ c ∷ [] | d ∷ ds ↦ d ∷ ds ]) ≡ is_of_stop db t p db.trip_cities
    own [] m e = cc
    own (d ∷ ds) m e = e

gains-member :
    (db : Db) (c t p : ℕ) (ts : List ℕ)
    → gains db c t p ts ≡ (member t ts && is_in db p (cities_of db t c))
gains-member db c t p [] = refl
gains-member db c t p (u ∷ ts) = elim (Bool-cases (t == u)) [
  | inl mine ↦
      let same : is_in db p (cities_of db u c) ≡ is_in db p (cities_of db t c) =
        ap (λ x. is_in db p (cities_of db x c)) (sym ((==_iff t u).0 mine)) in
      ground (arith, gains-member db c t p ts, same, mine)
  | inr other ↦ ground (arith, gains-member db c t p ts, other)
]

gains-standing :
    (db : Db) (c t p : ℕ)
    → gains db c t p (city_trips db c)
      ≡ (is_standing db t && is_stop db t c && is_of_stop db t p db.trip_cities)
gains-standing db c t p = elim (Bool-cases (is_stop db t c)) [
  | inl stop ↦
      gains-member db c t p (city_trips db c)
      ∙ rw (member-city_trips db c t db.trips, is_in-cities_of db t c p stop, stop) (ground arith)
  | inr other ↦
      gains-member db c t p (city_trips db c)
      ∙ rw (member-city_trips db c t db.trips, other) (ground arith)
]

-- When a city's ingest run is over, a trip lists a place where it did before, and where a row of `trips` has
-- the trip not deleted, a row of `trip_cities` has it with the run's city, and a row of
-- `trip_cities` has it with any city that the place is filed under or was looked up for; nowhere else.
pub claim_after_ingest_lists :
    (db : Db) (runs : List IngestRun) (run_id c t p : ℕ) {run : IngestRun}
    → find (λ r. r.run_id == run_id) runs ≡ some run
    → is_ingest run ≡ true
    → is_active run.status ≡ false
    → run.city_id ≡ some c
    → is_claimed t p (claim_after_ingest db runs run_id).trip_places ≡ (
        is_claimed t p db.trip_places
        || (is_standing db t && is_stop db t c && is_of_stop db t p db.trip_cities))
unfolding claim_after_ingest
claim_after_ingest_lists db runs run_id c t p {run} found ingest over city =
    rw (claim_after_ingest, found, ingest, over, city)
      (ground (arith, is_claimed-claim_trips t p c (city_trips db c) db, gains-standing db c t p))
