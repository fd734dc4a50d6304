-- ===== src/Planning/Itinerary/Fitting.antt =====
-- A replaced itinerary keeps every block on its trip's days and inside their usable windows.
use flight_pricing.Base.{
  sym, Bool-cases, ==_iff, ℕ, ◌+◌, ◌≡◌, refl, ap, ◌∙◌, subst, Bool, true, not, ◌&&◌, none, some,
  List, [], ◌∷◌, ◌++◌, leb, ◌==◌, member, distinct, any, all, filter, length, arith, inl, inr,
  Option-cases,
}
use flight_pricing.Base.Result.{
  ok, raise_if, >>=-eq-ok, raise_if-ok, day_twice, past_end, outside_window, block_twice,
  stray_city, not_on_trip,
}
use flight_pricing.Models.{Db}
use flight_pricing.Models.People.{Trip}
use flight_pricing.Models.Itinerary.{ItineraryItem}
use flight_pricing.Planning.Calendar.{day_count, pieces}
use flight_pricing.Planning.Itinerary.Stored.{IsKeyed, replaced-IsKeyed}
use flight_pricing.Planning.Itinerary.{
  ItemIn, DayIn, trip_row, get_trip, check_day, in_window, last_day, check_item, check_items,
  check_days, block_ids, place_ids, named_cities, city_ids, is_listed, day_indices, item_row,
  day_rows, new_rows, survives, replaced, replace_days,
}

all-append :
    (p : ItineraryItem → Bool) (xs ys : List ItineraryItem)
    → all p xs ≡ true
    → all p ys ≡ true
    → all p (xs ++ ys) ≡ true
all-append p [] ys h k = k
all-append p (x ∷ xs) ys h k = ground (arith, all-append p xs ys)

all-filter :
    (p q : ItineraryItem → Bool) (xs : List ItineraryItem)
    → all p xs ≡ true
    → all p (filter q xs) ≡ true
all-filter p q [] h = refl
all-filter p q (x ∷ xs) h = ground (arith, all-filter p q xs)

all_mono :
    (p q : ItineraryItem → Bool) (xs : List ItineraryItem)
    → ((x : ItineraryItem) → p x ≡ true → q x ≡ true)
    → all p xs ≡ true
    → all q xs ≡ true
all_mono p q [] f h = refl
all_mono p q (x ∷ xs) f h =
    let here : p x ≡ true = ground arith in rw (f x here) (all_mono p q xs f (ground arith))

all-both :
    (p q : ItineraryItem → Bool) (xs : List ItineraryItem)
    → all p xs ≡ true
    → all q xs ≡ true
    → all (λ x. p x && q x) xs ≡ true
all-both p q [] h k = refl
all-both p q (x ∷ xs) h k = ground (arith, all-both p q xs)

-- A row's block stays on the trip's days and in their windows.
abbrev pub fits_trip : Trip → ItineraryItem → Bool
fits_trip trip r =
    let covered = pieces r.day_index r.start_min r.duration_min in
    not (leb (day_count trip) (last_day covered)) && all (in_window trip) covered

abbrev pub fits_row : Db → ItineraryItem → Bool
fits_row db r = elim (trip_row r.trip_id db.trips) [ none ↦ true | some t ↦ fits_trip t r ]

check_item-ok :
    (trip : Trip) (u day : ℕ) (i : ItemIn) (id : ℕ)
    → check_item trip day i ≡ ok tt
    → fits_trip trip (item_row u day i id) ≡ true
unfolding check_item
check_item-ok trip u day i id h =
    let covered = pieces day i.start_min i.duration_min in
    let (_, ends, h₁) =
      >>=-eq-ok (raise_if (leb (day_count trip) (last_day covered)) past_end) _ h in
    let inside = raise_if-ok (not (all (in_window trip) covered)) outside_window h₁ in
    let early = raise_if-ok (leb (day_count trip) (last_day covered)) past_end ends in ground arith

check_items-ok :
    (trip : Trip) (u day : ℕ) (is : List ItemIn) (id : ℕ)
    → check_items trip day is ≡ ok tt
    → all (fits_trip trip) (day_rows u day is id) ≡ true
unfolding check_items
check_items-ok trip u day [] id h = refl
check_items-ok trip u day (i ∷ is) id h =
    let (_, first, h₁) = >>=-eq-ok (check_item trip day i) _ h in
    rw (check_item-ok trip u day i id first) (check_items-ok trip u day is (id + 1) h₁)

check_days-ok :
    (trip : Trip) (u : ℕ) (ds : List DayIn) (id : ℕ)
    → check_days trip ds ≡ ok tt
    → all (fits_trip trip) (new_rows u ds id) ≡ true
unfolding check_days
check_days-ok trip u [] id h = refl
check_days-ok trip u (d ∷ ds) id h =
    let (_, _, h₁) = >>=-eq-ok (check_day trip d.day_index) _ h in
    let (_, items, h₂) = >>=-eq-ok (check_items trip d.day_index d.items) _ h₁ in
    all-append (fits_trip trip) (day_rows u d.day_index d.items id)
      (new_rows u ds (id + length d.items)) (check_items-ok trip u d.day_index d.items id items)
      (check_days-ok trip u ds (id + length d.items) h₂)

-- A row is of the trip and on one of the days.
abbrev pub is_on : ℕ → List ℕ → ItineraryItem → Bool
is_on u days r = r.trip_id == u && member r.day_index days

day_rows-on :
    (u day id : ℕ) (days : List ℕ) (is : List ItemIn)
    → member day days ≡ true
    → all (is_on u days) (day_rows u day is id) ≡ true
day_rows-on u day id days [] h = refl
day_rows-on u day id days (i ∷ is) h = ground (arith, day_rows-on u day (id + 1) days is)

pub new_rows-on :
    (u id : ℕ) (days : List ℕ) (ds : List DayIn)
    → all (λ d. member d days) (day_indices ds) ≡ true
    → all (is_on u days) (new_rows u ds id) ≡ true
new_rows-on u id days [] h = refl
new_rows-on u id days (d ∷ ds) h =
    all-append (is_on u days) (day_rows u d.day_index d.items id)
      (new_rows u ds (id + length d.items))
      (day_rows-on u d.day_index id days d.items (ground arith))
      (new_rows-on u (id + length d.items) days ds (ground arith))

all-weaken :
    (d : ℕ) (days xs : List ℕ)
    → all (λ x. member x days) xs ≡ true
    → all (λ x. member x (d ∷ days)) xs ≡ true
all-weaken d days [] h = refl
all-weaken d days (x ∷ xs) h = ground (arith, all-weaken d days xs)

pub all-member : (xs : List ℕ) → all (λ x. member x xs) xs ≡ true
all-member [] = refl
all-member (x ∷ xs) = ground (arith, all-weaken x xs xs (all-member xs))

pub get_trip-ok :
    (db : Db) (u : ℕ) {trip : Trip} → get_trip db u ≡ ok trip → trip_row u db.trips ≡ some trip
unfolding get_trip
get_trip-ok db u h = elim (Option-cases (trip_row u db.trips)) [
  | inl missing ↦ ground arith
  | inr (t, found) ↦ ground arith
]

-- The row that is found has the id.
pub trip_row-id : (t : ℕ) (ts : List Trip) {x : Trip} → trip_row t ts ≡ some x → x.trip_id ≡ t
trip_row-id t [] h = cc
trip_row-id t (y ∷ ts) {x} h = elim (Bool-cases (y.trip_id == t)) [
  | inl mine ↦
      let same : y ≡ x = ground (arith, h) in
      ap (λ z. z.trip_id) (sym same) ∙ (==_iff y.trip_id t).0 mine
  | inr other ↦ trip_row-id t ts {x = x} (ground (arith, h))
]

-- What `replace_days` checks before it writes.
pub replace_days-ok :
    (db : Db) (u : ℕ) (ds : List DayIn) (id : ℕ) {db' : Db}
    → replace_days db u ds id ≡ ok db'
    → (trip : Trip) × (trip_row u db.trips ≡ some trip)
      × (check_days trip ds ≡ ok tt)
      × (distinct (block_ids ds) ≡ true)
      × (replaced db u ds id ≡ db')
unfolding replace_days get_trip
replace_days-ok db u ds id {db'} h =
    let (trip, got, h₁) = >>=-eq-ok (get_trip db u) _ h in
    let (_, _, h₂) = >>=-eq-ok (raise_if (not (distinct (day_indices ds))) day_twice) _ h₁ in
    let (_, checked, h₃) = >>=-eq-ok (check_days trip ds) _ h₂ in
    let (_, single, h₄) = >>=-eq-ok (raise_if (not (distinct (block_ids ds))) block_twice) _ h₃ in
    let (_, _, h₅) =
      >>=-eq-ok
        (raise_if (any (λ c. not (member c (city_ids db trip))) (named_cities ds)) stray_city) _
        h₄ in
    let (_, _, h₆) =
      >>=-eq-ok (raise_if (any (λ p. not (is_listed db u p)) (place_ids ds)) not_on_trip) _ h₅ in
    let once = raise_if-ok (not (distinct (block_ids ds))) block_twice single in
    (trip, get_trip-ok db u got, checked, ground arith, cc)

new_rows-fits :
    (db : Db) (u id : ℕ) (ds : List DayIn) (trip : Trip)
    → trip_row u db.trips ≡ some trip
    → check_days trip ds ≡ ok tt
    → all (fits_row db) (new_rows u ds id) ≡ true
new_rows-fits db u id ds trip found checked =
    let fitting = check_days-ok trip u ds id checked in
    let own = new_rows-on u id (day_indices ds) ds (all-member (day_indices ds)) in
    all_mono (λ r. fits_trip trip r && is_on u (day_indices ds) r) (fits_row db) (new_rows u ds id)
      (λ r both.
        let same : r.trip_id ≡ u = ground arith in
        let mine : trip_row r.trip_id db.trips ≡ some trip =
          ap (λ k. trip_row k db.trips) same ∙ found in
        rw (mine, fits_row) (ground arith))
      (all-both (fits_trip trip) (is_on u (day_indices ds)) (new_rows u ds id) fitting own)

-- A replacement that succeeds leaves a database in which no trip has two blocks of one id and every
-- block lies on its trip's days and within their usable windows, where the database before it was such.
pub replace_days_keeps :
    (db : Db) (u : ℕ) (ds : List DayIn) (id : ℕ) {db' : Db}
    → replace_days db u ds id ≡ ok db'
    → IsKeyed db
    → all (fits_row db) db.items ≡ true
    → IsKeyed db' × (all (fits_row db') db'.items ≡ true)
replace_days_keeps db u ds id {db'} h keyed fitting =
    let (trip, found, checked, once, made) = replace_days-ok db u ds id h in
    subst (λ d. IsKeyed d × (all (fits_row d) d.items ≡ true)) made
      (
        replaced-IsKeyed db u ds id once keyed,
        all-append (fits_row db) (filter (survives u ds) db.items) (new_rows u ds id)
            (all-filter (fits_row db) (survives u ds) db.items fitting)
            (new_rows-fits db u id ds trip found checked),
      )
