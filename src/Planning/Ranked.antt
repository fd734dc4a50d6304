-- ===== src/Planning/Ranked.antt =====
-- What a page of the shortlist shows.
use flight_pricing.Base.{
  ℕ, zero, suc, ◌≤◌, ◌≡◌, refl, subst, Bool, true, false, Option, List, [], ◌∷◌, map, leb, ◌==◌,
  any, filter, take, drop, length, All, All-mono, All-filter_test, arith,
}
use flight_pricing.Base.Result.{ok, >>=-eq-ok}
use flight_pricing.Base.Sort.{All-sort_by, IsSorted, sort_by-IsSorted_by}
use flight_pricing.Base.Takes.{All-take, All-drop, take-IsSorted, drop-IsSorted}
use flight_pricing.Models.{Db}
use flight_pricing.Models.People.{Trip, City}
use flight_pricing.Models.Itinerary.{Place}
use flight_pricing.Planning.Itinerary.{get_trip, is_listed}
use flight_pricing.Planning.Itinerary.Fitting.{trip_row-id, get_trip-ok}
use flight_pricing.Planning.Shortlist.{is_dismissed}
use flight_pricing.Planning.Ranking.{
  Reading, ShortlistQuery, ShortlistPlace, Shortlist, is_shown, rank_of, ranks_before,
  ranked_places, shortlist_place, page_of, with_total, query_city, trip_cities, shortlist,
}

-- A row is of a place that the trip lists and has not struck off.
abbrev pub IsShown : Db → ℕ → ℕ → Type 0
IsShown db trip_id place_id =
    (is_listed db trip_id place_id ≡ true)
    × (is_dismissed trip_id place_id db.trip_dismissals ≡ false)

-- More mentions stand first.
abbrev pub by_rank : ShortlistPlace → ShortlistPlace → Bool
by_rank a b = leb b.mention_count a.mention_count

abbrev place_rank : Reading → Place → Place → Bool
place_rank rd a b = leb (rank_of rd b) (rank_of rd a)

pub record IsRanked (db : Db) (trip_id limit : ℕ) (s : Shortlist) : Type 0 where
  pub listed : All (λ r. IsShown db trip_id r.place_id) s.shown
  pub ranked : IsSorted by_rank s.shown
  pub at_most : length s.shown ≤ limit
  pub in_total : length s.shown ≤ s.total

abbrev IsHeld : List Place → Place → Type 0
IsHeld ps p = any (λ (q : Place). q.place_id == p.place_id) ps ≡ true

IsHeld-all : (ps : List Place) → All (IsHeld ps) ps
IsHeld-all [] = tt
IsHeld-all (p ∷ ps) = (
  ground arith,
  All-mono (IsHeld ps) (IsHeld (p ∷ ps)) ps (λ q h. ground (arith, h)) (IsHeld-all ps),
)

is_shown-IsShown :
    (rd : Reading) (db : Db) (trip_id : ℕ) (query : ShortlistQuery) (city : Option City) (p : Place)
    → IsHeld db.places p × (is_shown rd db trip_id query city p ≡ true)
    → IsShown db trip_id p.place_id
is_shown-IsShown rd db trip_id query city p (held, shown) = ground (arith, held, shown)

module _ {ℓ} {A : Type ℓ} where
  length-page :
      (n k : ℕ) (xs : List A)
      → (length (take n (drop k xs)) ≤ n) × (length (take n (drop k xs)) ≤ length xs)
  length-page zero k xs = (omega arith, omega arith)
  length-page (suc n) zero [] = (omega arith, omega arith)
  length-page (suc n) zero (x ∷ xs) =
      let rest = length-page n zero xs in (omega (arith, rest), omega (arith, rest))
  length-page (suc n) (suc k) [] = (omega arith, omega arith)
  length-page (suc n) (suc k) (x ∷ xs) =
      let rest = length-page (suc n) k xs in (omega (arith, rest), omega (arith, rest))

module _ {ℓ κ} {A : Type ℓ} {B : Type κ} (f : A → B) where
  length-map : (xs : List A) → length (map f xs) ≡ length xs
  length-map [] = refl
  length-map (x ∷ xs) = omega (arith, length-map xs)

  map-IsSorted :
      (le : A → A → Bool) (to : B → B → Bool)
      → ((x y : A) → le x y ≡ true → to (f x) (f y) ≡ true)
      → (xs : List A) → IsSorted le xs
      → IsSorted to (map f xs)
  map-IsSorted le to h [] v = tt
  map-IsSorted le to h (x ∷ []) v = tt
  map-IsSorted le to h (x ∷ y ∷ ys) v = (h x y v.0, map-IsSorted le to h (y ∷ ys) v.1)

  pub All-map {ν} : (P : B → Type ν) (xs : List A) → All (λ x. P (f x)) xs → All P (map f xs)
  All-map P [] h = tt
  All-map P (x ∷ xs) h = (h.0, All-map P xs h.1)

ranks_before-ahead :
    (rd : Reading) (a b : Place) → ranks_before rd a b ≡ true → place_rank rd a b ≡ true
ranks_before-ahead rd a b h = ground (arith, h)

ranks_before-behind :
    (rd : Reading) (a b : Place) → ranks_before rd a b ≡ false → place_rank rd b a ≡ true
ranks_before-behind rd a b h = ground (arith, h)

pub page_of-IsRanked :
    (rd : Reading) (db : Db) (trip : Trip) (query : ShortlistQuery) (city : Option City)
    (limit offset : ℕ)
    → let page = page_of rd db trip query city limit offset in
      All (λ r. IsShown db trip.trip_id r.place_id) page
      × IsSorted by_rank page
      × (length page ≤ limit)
      × (length page ≤ length (ranked_places rd db trip query city))
unfolding page_of ranked_places
page_of-IsRanked rd db trip query city limit offset =
    let shown = is_shown rd db trip.trip_id query city in
    let found = filter shown db.places in
    let all_ranked = ranked_places rd db trip query city in
    let page = take limit (drop offset all_ranked) in
    let row = shortlist_place rd db trip (trip_cities db trip) in
    let fits = λ (p : Place). IsShown db trip.trip_id p.place_id in
    let good : All fits found =
      All-mono (λ p. IsHeld db.places p × (shown p ≡ true)) fits found
        (is_shown-IsShown rd db trip.trip_id query city)
        (All-filter_test (IsHeld db.places) shown db.places (IsHeld-all db.places)) in
    let ordered =
      sort_by-IsSorted_by (ranks_before rd) (place_rank rd) (ranks_before-ahead rd)
        (ranks_before-behind rd) found in
    let sizes = length-page limit offset all_ranked in
    (
      All-map row (λ r. IsShown db trip.trip_id r.place_id) page
          (All-take fits limit (drop offset all_ranked)
            (All-drop fits offset all_ranked (All-sort_by fits (ranks_before rd) found good))),
      map-IsSorted row (place_rank rd) by_rank (λ x y h. h) page
          (take-IsSorted (place_rank rd) limit (drop offset all_ranked)
            (drop-IsSorted (place_rank rd) offset all_ranked ordered)),
      omega (arith, length-map row page, sizes),
      omega (arith, length-map row page, sizes),
    )

with_total-IsRanked :
    (db : Db) (trip_id limit n : ℕ) (rs : List ShortlistPlace)
    → All (λ r. IsShown db trip_id r.place_id) rs
    → IsSorted by_rank rs
    → length rs ≤ limit
    → length rs ≤ n
    → IsRanked db trip_id limit (with_total n rs)
with_total-IsRanked db trip_id limit n [] a b c d = record {
  listed = tt;
  ranked = tt;
  at_most = c;
  in_total = omega arith;
}
with_total-IsRanked db trip_id limit n (r ∷ rs) a b c d = record {
  listed = a;
  ranked = b;
  at_most = c;
  in_total = d;
}

-- A page of the shortlist, whatever the filters, has at most as many rows as were asked for and no more
-- than its total; each is of a place that the trip lists and has not struck off; and no row stands after
-- one of a place with fewer mentions.
pub shortlist-IsRanked :
    (rd : Reading) (db : Db) (trip_id : ℕ) (query : ShortlistQuery) (limit offset : ℕ)
    {s : Shortlist}
    → shortlist rd db trip_id query limit offset ≡ ok s
    → IsRanked db trip_id limit s
unfolding shortlist
shortlist-IsRanked rd db trip_id query limit offset {s} h =
    let (trip, got, h₁) = >>=-eq-ok (get_trip db trip_id) _ h in
    let (city, _, h₂) = >>=-eq-ok (query_city (trip_cities db trip) query.city_id) _ h₁ in
    let id = trip_row-id trip_id db.trips (get_trip-ok db trip_id got) in
    let page = page_of rd db trip query city limit offset in
    let n = length (ranked_places rd db trip query city) in
    let same : with_total n page ≡ s = cc in
    let (listed, ranked, at_most, in_total) = page_of-IsRanked rd db trip query city limit offset in
    subst (IsRanked db trip_id limit) same (
      subst (λ t. IsRanked db t limit (with_total n page)) id
        (with_total-IsRanked db trip.trip_id limit n page listed ranked at_most in_total))
