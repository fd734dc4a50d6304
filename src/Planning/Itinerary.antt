-- ===== src/Planning/Itinerary.antt =====
-- tp_backend/tp_api/route_planning/service.py, `replace_days`, with the bodies of schemas.py: the
-- listed days are replaced as wholes, at the times that the client sends.
pub mod Stored
pub mod Fitting
pub mod Exact
use flight_pricing.Base.{
  ℕ, ◌+◌, ◌*◌, ◌≡◌, Bool, true, false, not, ◌&&◌, ◌||◌, Option, none, some, List, [], ◌∷◌, ◌++◌,
  map, ltb, leb, ◌==◌, opt_eq, if◌then◌else◌, member, distinct, any, all, find, filter, length,
}
use flight_pricing.Base.Sort.{sort_by}
use flight_pricing.Base.Text.{Text}
use flight_pricing.Base.Result.{
  Result, ok, err, raise_if, ◌>>=◌, ◌>>◌, no_such_trip, outside_trip, day_twice, past_end,
  outside_window, block_twice, stray_city, not_on_trip, invalid_body,
}
use flight_pricing.Models.{Db}
use flight_pricing.Models.People.{Trip, City}
use flight_pricing.Models.Itinerary.{
  BlockKind, place, custom, Place, ItineraryItem, TripDay, TripPlace, TripCity,
}
use flight_pricing.Planning.Calendar.{day_count, available_window, Piece, pieces}

-- `ItemIn` as the client sends it, and as its validator leaves it.
pub record RawItem : Type 0 where
  pub kind : BlockKind
  pub place_id : Option ℕ
  pub block_id : Option ℕ
  pub title : Option Text
  pub description : Option Text
  pub start_min : ℕ
  pub duration_min : ℕ
  pub reference_url : Option Text

pub record ItemIn : Type 0 where
  pub kind : BlockKind
  pub place_id : Option ℕ
  pub block_id : ℕ
  pub title : Option Text
  pub description : Option Text
  pub start_min : ℕ
  pub duration_min : ℕ
  pub reference_url : Option Text

abbrev pub is_some {ℓ} : {A : Type ℓ} → Option A → Bool
is_some none = false
is_some (some a) = true

abbrev pub or_fresh : Option ℕ → ℕ → ℕ
or_fresh none fresh = fresh
or_fresh (some b) fresh = b

abbrev with_block : RawItem → ℕ → ItemIn
with_block i b = record {
  kind = i.kind;
  place_id = i.place_id;
  block_id = b;
  title = i.title;
  description = i.description;
  start_min = i.start_min;
  duration_min = i.duration_min;
  reference_url = i.reference_url;
}

-- The branches of `_check_identity`, by the block's kind.
unfoldable pub identify : BlockKind → RawItem → ℕ → Result ItemIn
identify place i fresh = do
  raise_if (not (is_some i.place_id) || is_some i.title) invalid_body
  ok (with_block i (or_fresh i.block_id fresh))
identify custom i fresh = do
  raise_if (not (is_some i.block_id) || not (is_some i.title) || is_some i.place_id) invalid_body
  ok (with_block i (or_fresh i.block_id fresh))

-- The bounds on the fields, and `_check_identity` with the uuid that it may draw.
unfoldable pub validate_item : RawItem → ℕ → Result ItemIn
unfolding identify
validate_item i fresh = do
  raise_if (not (ltb i.start_min (24 * 60)) || not (leb 1 i.duration_min)) invalid_body
  identify i.kind i fresh

-- `city_id`, which is only written when it is sent; null unassigns the day.
pub data CitySent : Type 0 where
  unsent unassign : CitySent
  assign : ℕ → CitySent

pub record DayIn : Type 0 where
  pub day_index : ℕ
  pub city_id : CitySent
  pub items : List ItemIn

-- `get_trip`
abbrev pub trip_row : ℕ → List Trip → Option Trip
trip_row trip_id = find (λ t. t.trip_id == trip_id)

unfoldable pub get_trip : Db → ℕ → Result Trip
get_trip db trip_id = elim (trip_row trip_id db.trips) [ none ↦ err no_such_trip | some t ↦ ok t ]

-- `check_day`
unfoldable pub check_day : Trip → ℕ → Result ℕ
check_day trip day_index = do
  raise_if (not (ltb day_index (day_count trip))) outside_trip
  ok (trip.arrive_date + day_index)

-- A piece stays inside what its day leaves usable.
abbrev pub in_window : Trip → Piece → Bool
in_window trip p = let w = available_window trip p.day in leb w.0 p.at && leb p.until w.1

-- `covered[-1][0]`
abbrev pub last_day : List Piece → ℕ
last_day [] = 0
last_day (p ∷ []) = p.day
last_day (p ∷ q ∷ ps) = last_day (q ∷ ps)

unfoldable pub check_item : Trip → ℕ → ItemIn → Result (Unit {0})
check_item trip day_index item = do
  let covered = pieces day_index item.start_min item.duration_min
  raise_if (leb (day_count trip) (last_day covered)) past_end
  raise_if (not (all (in_window trip) covered)) outside_window

unfoldable pub check_items : Trip → ℕ → List ItemIn → Result (Unit {0})
unfolding check_item
check_items trip day_index [] = ok tt
check_items trip day_index (i ∷ is) = do check_item trip day_index i; check_items trip day_index is

unfoldable pub check_days : Trip → List DayIn → Result (Unit {0})
unfolding check_items check_day
check_days trip [] = ok tt
check_days trip (d ∷ ds) = do
  _ ← check_day trip d.day_index
  check_items trip d.day_index d.items
  check_days trip ds

-- `[i.block_id for d in body.days for i in d.items]`
abbrev pub blocks_of : List ItemIn → List ℕ
blocks_of = map (λ i. i.block_id)

abbrev pub block_ids : List DayIn → List ℕ
block_ids [] = []
block_ids (d ∷ ds) = blocks_of d.items ++ block_ids ds

abbrev pub places_of : List ItemIn → List ℕ
places_of [] = []
places_of (i ∷ is) = elim i.place_id [ none ↦ places_of is | some p ↦ p ∷ places_of is ]

abbrev pub place_ids : List DayIn → List ℕ
place_ids [] = []
place_ids (d ∷ ds) = places_of d.items ++ place_ids ds

-- The cities that the days name.
abbrev pub named_cities : List DayIn → List ℕ
named_cities [] = []
named_cities (d ∷ ds) = elim d.city_id [
  | unsent ↦ named_cities ds
  | unassign ↦ named_cities ds
  | assign c ↦ c ∷ named_cities ds
]

-- `trip_cities` of libs/db/places.py, as ids: the trip's rows, or its anchor where it has none, and of
-- these the ones that the table of cities holds. Only membership and the count
-- are asked of it.
abbrev pub city_ids : Db → Trip → List ℕ
city_ids db trip =
    let rows =
      map (λ (r : TripCity). r.city_id) (filter (λ r. r.trip_id == trip.trip_id) db.trip_cities) in
    filter (λ c. any (λ (r : City). r.city_id == c) db.cities)
      (elim rows [ [] ↦ trip.city_id ∷ [] | c ∷ cs ↦ c ∷ cs ])

-- `in_shortlist`, of a place that the table holds.
abbrev pub is_listed : Db → ℕ → ℕ → Bool
is_listed db trip_id place_id =
    any (λ (p : Place). p.place_id == place_id) db.places
    && any (λ (r : TripPlace). r.trip_id == trip_id && r.place_id == place_id) db.trip_places

abbrev pub day_indices : List DayIn → List ℕ
day_indices = map (λ d. d.day_index)

-- The rows of the submitted blocks, with the ids that the table gives them in turn.
abbrev pub item_row : ℕ → ℕ → ItemIn → ℕ → ItineraryItem
item_row trip_id day_index i id = record {
  id = id;
  trip_id = trip_id;
  kind = i.kind;
  place_id = i.place_id;
  block_id = i.block_id;
  title = i.title;
  description = i.description;
  day_index = day_index;
  start_min = i.start_min;
  duration_min = i.duration_min;
  reference_url = i.reference_url;
}

abbrev pub day_rows : ℕ → ℕ → List ItemIn → ℕ → List ItineraryItem
day_rows trip_id day_index [] id = []
day_rows trip_id day_index (i ∷ is) id =
    item_row trip_id day_index i id ∷ day_rows trip_id day_index is (id + 1)

abbrev pub new_rows : ℕ → List DayIn → ℕ → List ItineraryItem
new_rows trip_id [] id = []
new_rows trip_id (d ∷ ds) id =
    day_rows trip_id d.day_index d.items id ++ new_rows trip_id ds (id + length d.items)

-- What the delete leaves: other trips, and this trip's blocks that are neither on a listed day nor sent.
abbrev pub survives : ℕ → List DayIn → ItineraryItem → Bool
survives trip_id days r = not (
    r.trip_id == trip_id
    && (member r.day_index (day_indices days) || member r.block_id (block_ids days)))

-- The rows of `trip_days` that the sent cities replace, and the new ones.
abbrev pub sends_city : CitySent → Bool
sends_city unsent = false
sends_city _ = true

abbrev pub city_days : List DayIn → List ℕ
city_days days = day_indices (filter (λ d. sends_city d.city_id) days)

abbrev pub assigned_days : ℕ → List DayIn → List TripDay
assigned_days trip_id [] = []
assigned_days trip_id (d ∷ ds) = elim d.city_id [
  | unsent ↦ assigned_days trip_id ds
  | unassign ↦ assigned_days trip_id ds
  | assign c ↦
      record { trip_id = trip_id; day_index = d.day_index; city_id = c } ∷ assigned_days trip_id ds
]

-- The database that a valid request leaves.
abbrev pub replaced : Db → ℕ → List DayIn → ℕ → Db
replaced db trip_id days id = record db {
  items = filter (survives trip_id days) db.items ++ new_rows trip_id days id;
  trip_days =
      filter (λ r. not (r.trip_id == trip_id && member r.day_index (city_days days))) db.trip_days
      ++ assigned_days trip_id days;
}

-- `replace_days`, up to the reading of the result.
unfoldable pub replace_days : Db → ℕ → List DayIn → ℕ → Result Db
replace_days db trip_id days id = do
  trip ← get_trip db trip_id
  raise_if (not (distinct (day_indices days))) day_twice
  check_days trip days
  raise_if (not (distinct (block_ids days))) block_twice
  raise_if (any (λ c. not (member c (city_ids db trip))) (named_cities days)) stray_city
  raise_if (any (λ p. not (is_listed db trip_id p)) (place_ids days)) not_on_trip
  ok (replaced db trip_id days id)
