-- ===== src/Planning/Shortlist.antt =====
-- tp_backend/libs/db/places.py and tp_backend/tp_api/route_planning/service.py: which places a trip
-- lists, and which of them it has struck off.
pub mod Listed
use flight_pricing.Base.{
  ℕ, ◌≡◌, Bool, true, false, not, ◌&&◌, ◌||◌, List, [], ◌∷◌, ◌++◌, map, ◌==◌, if◌then◌else◌, any,
  filter, member,
}
use flight_pricing.Base.Result.{Result, ok, raise_if, ◌>>=◌, ◌>>◌, not_on_trip}
use flight_pricing.Models.{Db}
use flight_pricing.Models.People.{Trip}
use flight_pricing.Models.Itinerary.{Place, TripPlace, TripDismissal, TripCity, PlaceQuery}
use flight_pricing.Planning.Itinerary.{get_trip, is_listed}

-- The rows of a trip and a place.
abbrev pub is_claimed : ℕ → ℕ → List TripPlace → Bool
is_claimed trip_id place_id = any (λ r. r.trip_id == trip_id && r.place_id == place_id)

abbrev pub is_dismissed : ℕ → ℕ → List TripDismissal → Bool
is_dismissed trip_id place_id = any (λ r. r.trip_id == trip_id && r.place_id == place_id)

-- `insert ... on conflict do nothing`
abbrev pub insert_place : ℕ → ℕ → List TripPlace → List TripPlace
insert_place trip_id place_id rs =
    if is_claimed trip_id place_id rs
    then rs
    else rs ++ record { trip_id = trip_id; place_id = place_id } ∷ []

abbrev pub without_dismissal : ℕ → ℕ → List TripDismissal → List TripDismissal
without_dismissal trip_id place_id =
    filter (λ r. not (r.trip_id == trip_id && r.place_id == place_id))

-- `claim_place`
unfoldable pub claim_place : Db → ℕ → ℕ → Db
claim_place db trip_id place_id = record db {
  trip_places = insert_place trip_id place_id db.trip_places;
  trip_dismissals = without_dismissal trip_id place_id db.trip_dismissals;
}

-- `add_dismissal`
unfoldable pub add_dismissal : Db → ℕ → ℕ → Result Db
add_dismissal db trip_id place_id = do
  _ ← get_trip db trip_id
  raise_if (not (is_listed db trip_id place_id)) not_on_trip
  ok (record db {
    trip_dismissals =
        if is_dismissed trip_id place_id db.trip_dismissals
        then db.trip_dismissals
        else db.trip_dismissals ++ record { trip_id = trip_id; place_id = place_id } ∷ [];
  })

-- `remove_dismissal`
unfoldable pub remove_dismissal : Db → ℕ → ℕ → Result Db
remove_dismissal db trip_id place_id = do
  _ ← get_trip db trip_id
  ok (record db { trip_dismissals = without_dismissal trip_id place_id db.trip_dismissals })

-- The places of a city: those filed under it, and those that one of its names resolved to.
abbrev pub resolved : ℕ → List PlaceQuery → List ℕ
resolved city_id qs = map (λ q. q.place_id) (filter (λ q. q.city_id == city_id) qs)

abbrev pub is_of_city : Db → ℕ → Place → Bool
is_of_city db city_id p =
    p.city_id == city_id || member p.place_id (resolved city_id db.place_queries)

abbrev pub insert_places : ℕ → List ℕ → List TripPlace → List TripPlace
insert_places trip_id [] rs = rs
insert_places trip_id (p ∷ ps) rs = insert_places trip_id ps (insert_place trip_id p rs)

abbrev pub city_places : Db → ℕ → List ℕ
city_places db city_id = map (λ (p : Place). p.place_id) (filter (is_of_city db city_id) db.places)

-- `claim_city_places`
unfoldable pub claim_city_places : Db → ℕ → ℕ → Db
claim_city_places db trip_id city_id = record db {
  trip_places = insert_places trip_id (city_places db city_id) db.trip_places;
}

-- `covers_city`
abbrev pub covers_city : Db → ℕ → Trip → Bool
covers_city db city_id t =
    any (λ (r : TripCity). r.trip_id == t.trip_id && r.city_id == city_id) db.trip_cities

abbrev pub city_trips : Db → ℕ → List ℕ
city_trips db city_id =
    map (λ t. t.trip_id) (filter (λ t. covers_city db city_id t && not t.deleted) db.trips)

abbrev pub insert_all : List ℕ → List ℕ → List TripPlace → List TripPlace
insert_all [] ps rs = rs
insert_all (t ∷ ts) ps rs = insert_all ts ps (insert_places t ps rs)

-- `claim_for_city_trips`; with no trips or no places it inserts nothing.
unfoldable pub claim_for_city_trips : Db → ℕ → List ℕ → Db
claim_for_city_trips db city_id place_ids = record db {
  trip_places = insert_all (city_trips db city_id) place_ids db.trip_places;
}
