-- ===== src/Planning/Shortlist/Listed.antt =====
-- What a claim and a dismissal do to every trip's list.
use flight_pricing.Base.{
  ℕ, ◌≡◌, refl, sym, ap, Bool, true, not, map, filter, any, ==_iff, inl, inr, Bool-cases, ◌&&◌,
  ◌||◌, List, [], ◌∷◌, ◌++◌, ◌==◌, member, arith,
}
use flight_pricing.Models.{Db}
use flight_pricing.Models.People.{Trip}
use flight_pricing.Models.Itinerary.{TripPlace, TripDismissal, TripCity}
use flight_pricing.Planning.Shortlist.{
  is_claimed, is_dismissed, insert_place, without_dismissal, claim_place, insert_places,
  covers_city, city_trips, insert_all, claim_for_city_trips,
}

is_claimed-append :
    (t p t' p' : ℕ) (rs : List TripPlace)
    → is_claimed t p (rs ++ record { trip_id = t'; place_id = p' } ∷ [])
      ≡ (is_claimed t p rs || (t == t' && p == p'))
is_claimed-append t p t' p' [] = ground arith
is_claimed-append t p t' p' (r ∷ rs) = ground (arith, is_claimed-append t p t' p' rs)

is_claimed-same :
    (t p t' p' : ℕ) (rs : List TripPlace)
    → is_claimed t' p' rs ≡ true
    → (t == t' && p == p') ≡ true
    → is_claimed t p rs ≡ true
is_claimed-same t p t' p' [] h e = cc
is_claimed-same t p t' p' (r ∷ rs) h e = ground (arith, is_claimed-same t p t' p' rs)

is_claimed-insert_place :
    (t p t' p' : ℕ) (rs : List TripPlace)
    → is_claimed t p (insert_place t' p' rs) ≡ (is_claimed t p rs || (t == t' && p == p'))
is_claimed-insert_place t p t' p' rs =
    ground (arith, is_claimed-append t p t' p' rs, is_claimed-same t p t' p' rs)

is_dismissed-without :
    (t p t' p' : ℕ) (rs : List TripDismissal)
    → is_dismissed t p (without_dismissal t' p' rs)
      ≡ (is_dismissed t p rs && not (t == t' && p == p'))
is_dismissed-without t p t' p' [] = refl
is_dismissed-without t p t' p' (r ∷ rs) = ground (arith, is_dismissed-without t p t' p' rs)

pub is_claimed-insert_places :
    (t p t' : ℕ) (ps : List ℕ) (rs : List TripPlace)
    → is_claimed t p (insert_places t' ps rs) ≡ (is_claimed t p rs || (t == t' && member p ps))
is_claimed-insert_places t p t' [] rs = ground arith
is_claimed-insert_places t p t' (q ∷ ps) rs = ground (
  arith,
  is_claimed-insert_places t p t' ps (insert_place t' q rs),
  is_claimed-insert_place t p t' q rs,
)

is_claimed-insert_all :
    (t p : ℕ) (ts ps : List ℕ) (rs : List TripPlace)
    → is_claimed t p (insert_all ts ps rs) ≡ (is_claimed t p rs || (member t ts && member p ps))
is_claimed-insert_all t p [] ps rs = ground arith
is_claimed-insert_all t p (t' ∷ ts) ps rs = ground (
  arith,
  is_claimed-insert_all t p ts ps (insert_places t' ps rs),
  is_claimed-insert_places t p t' ps rs,
)

-- Claiming a place for a trip lists it there and undoes its dismissal there; every other place of
-- every trip stays listed or not, and dismissed or not, as it was.
pub claim_place_shows :
    (db : Db) (t p t' p' : ℕ)
    → let db' = claim_place db t p in
      (is_claimed t' p' db'.trip_places ≡ (is_claimed t' p' db.trip_places || (t' == t && p' == p)))
      × (is_dismissed t' p' db'.trip_dismissals
          ≡ (is_dismissed t' p' db.trip_dismissals && not (t' == t && p' == p)))
unfolding claim_place
claim_place_shows db t p t' p' = (
  is_claimed-insert_place t' p' t p db.trip_places,
  is_dismissed-without t' p' t p db.trip_dismissals,
)

-- A row of `trips` with this id is not deleted.
abbrev pub is_standing : Db → ℕ → Bool
is_standing db t = any (λ (r : Trip). t == r.trip_id && not r.deleted) db.trips

-- A row of `trip_cities` has this trip and this city.
abbrev pub is_stop : Db → ℕ → ℕ → Bool
is_stop db t city_id = any (λ (r : TripCity). r.trip_id == t && r.city_id == city_id) db.trip_cities

pub member-city_trips :
    (db : Db) (city_id t : ℕ) (rs : List Trip)
    → member t (map (λ t. t.trip_id) (filter (λ t. covers_city db city_id t && not t.deleted) rs))
      ≡ (any (λ r. t == r.trip_id && not r.deleted) rs && is_stop db t city_id)
member-city_trips db city_id t [] = refl
member-city_trips db city_id t (r ∷ rs) =
    let rest = member-city_trips db city_id t rs in
    elim (Bool-cases (t == r.trip_id)) [
      | inl mine ↦
          let same : covers_city db city_id r ≡ is_stop db t city_id =
            ap (λ x. is_stop db x city_id) (sym ((==_iff t r.trip_id).0 mine)) in
          ground (arith, rest, same, mine)
      | inr other ↦ ground (arith, rest, other)
    ]

-- After a run resolves places of a city, a trip lists a place where it did before, and where the place is
-- one of these, a row of `trips` has the trip not deleted and a row of `trip_cities` has it with the
-- city; nowhere else.
pub claim_for_city_trips_lists :
    (db : Db) (city_id : ℕ) (place_ids : List ℕ) (t p : ℕ)
    → is_claimed t p (claim_for_city_trips db city_id place_ids).trip_places ≡ (
        is_claimed t p db.trip_places
        || (is_standing db t && is_stop db t city_id && member p place_ids))
unfolding claim_for_city_trips
claim_for_city_trips_lists db city_id place_ids t p = ground (
  arith,
  is_claimed-insert_all t p (city_trips db city_id) place_ids db.trip_places,
  member-city_trips db city_id t db.trips,
)
