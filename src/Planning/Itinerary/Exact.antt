-- ===== src/Planning/Itinerary/Exact.antt =====
-- What a replaced itinerary holds: the sent blocks on the listed days, and other trips as they were.
use flight_pricing.Base.{
  ℕ, ◌≡◌, refl, ap, ◌∙◌, subst, Bool, true, false, List, [], ◌∷◌, ◌++◌, ◌==◌, all, filter, arith,
}
use flight_pricing.Base.Result.{ok}
use flight_pricing.Models.{Db}
use flight_pricing.Models.Itinerary.{ItineraryItem}
use flight_pricing.Planning.Itinerary.Fitting.{is_on, new_rows-on, all-member, replace_days-ok}
use flight_pricing.Planning.Itinerary.{DayIn, day_indices, new_rows, survives, replace_days}

append-nil : (xs : List ItineraryItem) → xs ++ [] ≡ xs
append-nil [] = refl
append-nil (x ∷ xs) = ap (λ ys. x ∷ ys) (append-nil xs)

filter-append :
    (p : ItineraryItem → Bool) (xs ys : List ItineraryItem)
    → filter p (xs ++ ys) ≡ filter p xs ++ filter p ys
filter-append p [] ys = refl
filter-append p (x ∷ xs) ys = ground (arith, filter-append p xs ys)

filter-all :
    (p : ItineraryItem → Bool) (xs : List ItineraryItem) → all p xs ≡ true → filter p xs ≡ xs
filter-all p [] h = refl
filter-all p (x ∷ xs) h = ground (arith, filter-all p xs)

survivors-off :
    (u : ℕ) (ds : List DayIn) (rs : List ItineraryItem)
    → filter (is_on u (day_indices ds)) (filter (survives u ds) rs) ≡ []
survivors-off u ds [] = refl
survivors-off u ds (r ∷ rs) = ground (arith, survivors-off u ds rs)

survivors-others :
    (t u : ℕ) (ds : List DayIn) (rs : List ItineraryItem)
    → (t == u) ≡ false
    → filter (λ r. r.trip_id == t) (filter (survives u ds) rs) ≡ filter (λ r. r.trip_id == t) rs
survivors-others t u ds [] other = refl
survivors-others t u ds (r ∷ rs) other = ground (arith, survivors-others t u ds rs)

filter-none :
    (t u : ℕ) (days : List ℕ) (rs : List ItineraryItem)
    → (t == u) ≡ false
    → all (is_on u days) rs ≡ true
    → filter (λ r. r.trip_id == t) rs ≡ []
filter-none t u days [] other h = refl
filter-none t u days (r ∷ rs) other h = ground (arith, filter-none t u days rs)

-- After a replacement that succeeds the trip's rows on the listed days are exactly the rows of the sent
-- blocks, in the order sent, and the rows of any other trip are the ones it had.
pub replace_days_exact :
    (db : Db) (u : ℕ) (ds : List DayIn) (id : ℕ) {db' : Db}
    → replace_days db u ds id ≡ ok db'
    → (filter (is_on u (day_indices ds)) db'.items ≡ new_rows u ds id)
      × ((t : ℕ)
          → (t == u) ≡ false
          → filter (λ r. r.trip_id == t) db'.items ≡ filter (λ r. r.trip_id == t) db.items)
replace_days_exact db u ds id {db'} h =
    let (_, _, _, _, made) = replace_days-ok db u ds id h in
    let own = new_rows-on u id (day_indices ds) ds (all-member (day_indices ds)) in
    let kept = filter (survives u ds) db.items in
    subst
      (λ d.
        (filter (is_on u (day_indices ds)) d.items ≡ new_rows u ds id)
        × ((t : ℕ)
            → (t == u) ≡ false
            → filter (λ r. r.trip_id == t) d.items ≡ filter (λ r. r.trip_id == t) db.items))
      made
      (
        filter-append (is_on u (day_indices ds)) kept (new_rows u ds id)
            ∙ rw (survivors-off u ds db.items)
                (filter-all (is_on u (day_indices ds)) (new_rows u ds id) own),
        λ t other.
            filter-append (λ r. r.trip_id == t) kept (new_rows u ds id)
            ∙ rw (filter-none t u (day_indices ds) (new_rows u ds id) other own) (
                append-nil (filter (λ r. r.trip_id == t) kept)
                ∙ survivors-others t u ds db.items other),
      )
