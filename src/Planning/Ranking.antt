-- ===== src/Planning/Ranking.antt =====
-- tp_backend/tp_api/route_planning/service.py, `shortlist`: a trip's places, ranked by their mentions.
-- The geofence, whose distances are floats, and the database's comparisons of texts are arguments.
use flight_pricing.Base.{
  ℕ, Bool, true, false, not, ◌&&◌, ◌||◌, Option, none, some, List, [], ◌∷◌, map, ltb, leb, ◌==◌,
  opt_eq, if◌then◌else◌, any, find, filter, take, drop, length, dedup, min,
}
use flight_pricing.Base.Result.{Result, ok, err, ◌>>=◌, city_off_trip}
use flight_pricing.Base.Sort.{sort_by, sort_ids}
use flight_pricing.Base.Text.{Text}
use flight_pricing.Models.{Db}
use flight_pricing.Models.People.{Trip, City}
use flight_pricing.Models.Itinerary.{
  Place, ItineraryItem, TripCity, Source, youtube, rednote, places, gemini, Sentiment, recommended,
  PlaceMention,
}
use flight_pricing.Planning.Itinerary.{get_trip}
use flight_pricing.Planning.Shortlist.{is_claimed, is_dismissed}

-- The table of mentions, and what is not computed here.
pub record Reading : Type 0 where
  pub mentions : List PlaceMention
  pub inside : City → Place → Bool
  pub contains : Text → Text → Bool
  pub name_before : Text → Text → Bool

abbrev pub mentions_of : List PlaceMention → ℕ → List PlaceMention
mentions_of ms place_id = filter (λ m. m.place_id == place_id) ms

-- The categories of the mentions that have one.
abbrev pub categories : List PlaceMention → List ℕ
categories [] = []
categories (m ∷ ms) = elim m.category [ none ↦ categories ms | some c ↦ c ∷ categories ms ]

abbrev pub times : ℕ → List ℕ → ℕ
times c cs = length (filter (λ d. d == c) cs)

-- `max(sorted(...), key=...)`: the first of those that are most often there.
abbrev pub modal_from : List ℕ → List ℕ → Option ℕ → Option ℕ
modal_from all_of [] best = best
modal_from all_of (c ∷ cs) none = modal_from all_of cs (some c)
modal_from all_of (c ∷ cs) (some b) =
    modal_from all_of cs (some (if ltb (times b all_of) (times c all_of) then c else b))

abbrev pub modal : List ℕ → Option ℕ
modal cs = modal_from cs (sort_ids (dedup cs)) none

abbrev pub is_recommended : Sentiment → Bool
is_recommended recommended = true
is_recommended _ = false

-- The longest `why_go` of a recommendation, the first of those as long.
abbrev pub longer_of : Option Text → Option Text → Option Text
longer_of best none = best
longer_of none (some []) = none
longer_of none (some (c ∷ t)) = some (c ∷ t)
longer_of (some b) (some t) = if ltb (length b) (length t) then some t else some b

abbrev pub blurb_from : Option Text → List PlaceMention → Option Text
blurb_from best [] = best
blurb_from best (m ∷ ms) =
    blurb_from (if is_recommended m.sentiment then longer_of best m.why_go else best) ms

-- `mention_facts`, of a place.
unfoldable pub mention_facts : List PlaceMention → ℕ → Option ℕ × Option Text
mention_facts ms place_id =
    let own = mentions_of ms place_id in (modal (categories own), blurb_from none own)

-- `category_of`
abbrev pub category_of : Place → Option ℕ → Option ℕ
category_of p derived = elim p.category [ none ↦ derived | some c ↦ some c ]

-- `trip_cities`, with the order of `cities_by_trip`: the anchor first, then by date and id.
abbrev pub city_before : ℕ → TripCity → TripCity → Bool
city_before anchor a b =
    if a.city_id == anchor
    then true
    else not (b.city_id == anchor)
      && (ltb a.created_at b.created_at
          || (a.created_at == b.created_at && leb a.city_id b.city_id))

abbrev pub or_anchor : ℕ → List ℕ → List ℕ
or_anchor anchor [] = anchor ∷ []
or_anchor anchor (c ∷ cs) = c ∷ cs

abbrev pub found_cities : List City → List ℕ → List City
found_cities cities [] = []
found_cities cities (c ∷ cs) = elim (find (λ r. r.city_id == c) cities) [
  | none ↦ found_cities cities cs
  | some city ↦ city ∷ found_cities cities cs
]

unfoldable pub trip_cities : Db → Trip → List City
trip_cities db trip =
    let rows =
      sort_by (city_before trip.city_id) (filter (λ r. r.trip_id == trip.trip_id) db.trip_cities) in
    found_cities db.cities (or_anchor trip.city_id (map (λ (r : TripCity). r.city_id) rows))

-- `city_label`, of the trip's cities and the one that the place is filed under.
abbrev pub filed_label : (City → Place → Bool) → Place → Option City → Option Text
filed_label inside p none = p.locality
filed_label inside p (some c) = if inside c p then some c.name else p.locality

unfoldable pub city_label : (City → Place → Bool) → Place → List City → Option City → Option Text
city_label inside p cities filed = elim (find (λ c. inside c p) cities) [
  | some c ↦ if ltb 1 (length cities) then some c.name else none
  | none ↦ filed_label inside p filed
]

-- The filters of a request.
pub record ShortlistQuery : Type 0 where
  pub category : Option ℕ
  pub source : Option Source
  pub text : Option Text
  pub city_id : Option ℕ

abbrev pub same_source : Source → Source → Bool
same_source youtube youtube = true
same_source rednote rednote = true
same_source places places = true
same_source gemini gemini = true
same_source _ _ = false

abbrev pub contains_in : (Text → Text → Bool) → Option Text → Text → Bool
contains_in contains none q = false
contains_in contains (some t) q = contains t q

abbrev pub has_category : Reading → Place → Option ℕ → Bool
has_category rd p none = true
has_category rd p (some c) =
    opt_eq (category_of p (mention_facts rd.mentions p.place_id).0) (some c)

abbrev pub has_source : Reading → Place → Option Source → Bool
has_source rd p none = true
has_source rd p (some s) = any (λ m. same_source m.source s) (mentions_of rd.mentions p.place_id)

abbrev pub has_text : Reading → Place → Option Text → Bool
has_text rd p none = true
has_text rd p (some []) = true
has_text rd p (some (c ∷ q)) =
    rd.contains p.name (c ∷ q)
    || contains_in rd.contains p.address (c ∷ q)
    || any (λ m. is_recommended m.sentiment && contains_in rd.contains m.why_go (c ∷ q))
        (mentions_of rd.mentions p.place_id)

abbrev pub is_inside : Reading → Place → Option City → Bool
is_inside rd p none = true
is_inside rd p (some c) = rd.inside c p

-- The `where` of the statement.
abbrev pub is_shown : Reading → Db → ℕ → ShortlistQuery → Option City → Place → Bool
is_shown rd db trip_id query city p =
    is_claimed trip_id p.place_id db.trip_places
    && not (is_dismissed trip_id p.place_id db.trip_dismissals)
    && has_category rd p query.category
    && is_inside rd p city
    && has_source rd p query.source
    && has_text rd p query.text

abbrev pub rank_of : Reading → Place → ℕ
rank_of rd p = length (mentions_of rd.mentions p.place_id)

-- `order_by(rank.desc(), Place.name)`
abbrev pub ranks_before : Reading → Place → Place → Bool
ranks_before rd a b =
    ltb (rank_of rd b) (rank_of rd a)
    || (rank_of rd a == rank_of rd b && rd.name_before a.name b.name)

-- `func.min(ItineraryItem.day_index)` of the place's blocks.
abbrev pub first_day : List ItineraryItem → Option ℕ
first_day [] = none
first_day (r ∷ rs) = elim (first_day rs) [
  | none ↦ some r.day_index
  | some d ↦ some (min r.day_index d)
]

abbrev pub planned_day : Db → ℕ → ℕ → Option ℕ
planned_day db trip_id place_id =
    first_day (filter (λ r. r.trip_id == trip_id && opt_eq r.place_id (some place_id)) db.items)

pub record ShortlistPlace : Type 0 where
  pub place_id : ℕ
  pub city_id : ℕ
  pub city_name : Option Text
  pub name : Text
  pub address : Option Text
  pub category : Option ℕ
  pub why_go : Option Text
  pub mention_count : ℕ
  pub day_index : Option ℕ

abbrev pub shortlist_place : Reading → Db → Trip → List City → Place → ShortlistPlace
shortlist_place rd db trip cities p =
    let facts = mention_facts rd.mentions p.place_id in
    record {
      place_id = p.place_id;
      city_id = p.city_id;
      city_name = city_label rd.inside p cities (find (λ c. c.city_id == p.city_id) db.cities);
      name = p.name;
      address = p.address;
      category = category_of p facts.0;
      why_go = facts.1;
      mention_count = rank_of rd p;
      day_index = planned_day db trip.trip_id p.place_id;
    }

-- The rows of all pages, and the page; an empty page says that there are none.
unfoldable pub ranked_places : Reading → Db → Trip → ShortlistQuery → Option City → List Place
ranked_places rd db trip query city =
    sort_by (ranks_before rd) (filter (is_shown rd db trip.trip_id query city) db.places)

unfoldable pub page_of :
    Reading → Db → Trip → ShortlistQuery → Option City → ℕ → ℕ → List ShortlistPlace
unfolding ranked_places trip_cities
page_of rd db trip query city limit offset =
    map (shortlist_place rd db trip (trip_cities db trip))
      (take limit (drop offset (ranked_places rd db trip query city)))

pub record Shortlist : Type 0 where
  pub total : ℕ
  pub shown : List ShortlistPlace

abbrev pub with_total : ℕ → List ShortlistPlace → Shortlist
with_total n [] = record { total = 0; shown = [] }
with_total n (r ∷ rs) = record { total = n; shown = r ∷ rs }

-- The city that a filter names must be the trip's.
abbrev pub query_city : List City → Option ℕ → Result (Option City)
query_city cities none = ok none
query_city cities (some c) = elim (find (λ r. r.city_id == c) cities) [
  | none ↦ err city_off_trip
  | some city ↦ ok (some city)
]

-- `shortlist`
unfoldable pub shortlist : Reading → Db → ℕ → ShortlistQuery → ℕ → ℕ → Result Shortlist
unfolding page_of
shortlist rd db trip_id query limit offset = do
  trip ← get_trip db trip_id
  city ← query_city (trip_cities db trip) query.city_id
  ok (
      with_total (length (ranked_places rd db trip query city))
        (page_of rd db trip query city limit offset))
