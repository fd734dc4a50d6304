-- ===== src/Planning/Tests.antt =====
-- A trip of three days, and the theorems on its blocks at it.
use flight_pricing.Base.{
  ℕ, ◌≡◌, refl, true, false, none, some, List, [], ◌∷◌, all, filter, ◌==◌, arith,
}
use flight_pricing.Base.Result.{ok, err, outside_window}
use flight_pricing.Models.{Db}
use flight_pricing.Models.People.{Trip}
use flight_pricing.Models.Itinerary.{
  custom, ItineraryItem, Place, PlaceMention, youtube, recommended,
}
use flight_pricing.Planning.Calendar.{pieces, available_window}
use flight_pricing.Planning.Calendar.Covered.{covered, covered-pieces}
use flight_pricing.Planning.Itinerary.{
  ItemIn, DayIn, unsent, day_indices, new_rows, replaced, replace_days, get_trip, check_day,
  check_items, check_days, check_item,
}
use flight_pricing.Planning.Itinerary.Stored.{IsKeyed}
use flight_pricing.Planning.Itinerary.Fitting.{fits_row, is_on, replace_days_keeps}
use flight_pricing.Planning.Ranking.{
  Reading, ShortlistPlace, ShortlistQuery, Shortlist, shortlist, mention_facts, city_label,
}
use flight_pricing.Planning.Ranked.{IsRanked, shortlist-IsRanked}
use flight_pricing.Planning.Shortlist.{claim_place, claim_for_city_trips, is_claimed, is_dismissed}
use flight_pricing.Planning.Shortlist.Listed.{claim_place_shows, claim_for_city_trips_lists}
use flight_pricing.Planning.Itinerary.Exact.{replace_days_exact}

covered-pieces_example : covered 4400 (pieces 2 1380 1600) ≡ true
covered-pieces_example = covered-pieces 2 1380 1600 4400 (omega arith)

abbrev trip : Trip
trip = record {
  trip_id = 9;
  city_id = 4;
  name = none;
  arrive_date = 700;
  arrive_time = some (record { hour = 10; minute = 30 });
  depart_date = 702;
  depart_time = some (record { hour = 18; minute = 0 });
  extra_details = none;
  deleted = false;
}

abbrev stored : ℕ → ℕ → ℕ → ItineraryItem
stored t block day = record {
  id = block;
  trip_id = t;
  kind = custom;
  place_id = none;
  block_id = block;
  title = some (65 ∷ []);
  description = none;
  day_index = day;
  start_min = 700;
  duration_min = 30;
  reference_url = none;
}

abbrev db : Db
db = record {
  users = [];
  cities =
      record {
        city_id = 4;
        name = 66 ∷ [];
        country = none;
        timezone = none;
        lat = none;
        lon = none;
      }
      ∷ [];
  trips = trip ∷ record trip { trip_id = 8 } ∷ [];
  user_trips = [];
  expenses = [];
  settlements = [];
  places = [];
  items = stored 9 1 0 ∷ stored 8 1 0 ∷ stored 9 2 1 ∷ [];
  trip_days = [];
  trip_places = [];
  trip_dismissals = [];
  trip_cities = [];
  place_queries = [];
}

abbrev sent : ℕ → ℕ → ℕ → ItemIn
sent block start duration = record {
  kind = custom;
  place_id = none;
  block_id = block;
  title = some (67 ∷ []);
  description = none;
  start_min = start;
  duration_min = duration;
  reference_url = none;
}

-- Block 2 moves from the second day to the first, which loses block 1.
abbrev days : List DayIn
days = record { day_index = 0; city_id = unsent; items = sent 2 640 60 ∷ sent 5 1400 100 ∷ [] } ∷ []

too_early :
    replace_days db 9
      (record { day_index = 0; city_id = unsent; items = sent 5 600 60 ∷ [] } ∷ [])
      50
    ≡ err outside_window
unfolding replace_days get_trip check_days check_day check_items check_item pieces available_window
too_early = refl

replace_days_exact_example :
    (filter (is_on 9 (day_indices days)) (replaced db 9 days 50).items ≡ new_rows 9 days 50)
    × ((t : ℕ)
        → (t == 9) ≡ false
        → filter (λ r. r.trip_id == t) (replaced db 9 days 50).items
          ≡ filter (λ r. r.trip_id == t) db.items)
unfolding replace_days get_trip check_days check_day check_items check_item pieces available_window
replace_days_exact_example = replace_days_exact db 9 days 50 {db' = replaced db 9 days 50} refl

db-IsKeyed : IsKeyed db
db-IsKeyed t = ground arith

replace_days_keeps_example :
    IsKeyed (replaced db 9 days 50)
    × (all (fits_row (replaced db 9 days 50)) (replaced db 9 days 50).items ≡ true)
unfolding replace_days get_trip check_days check_day check_items check_item pieces available_window
replace_days_keeps_example =
    replace_days_keeps db 9 days 50 {db' = replaced db 9 days 50} refl db-IsKeyed refl

abbrev struck : Db
struck = record db { trip_dismissals = record { trip_id = 9; place_id = 6 } ∷ [] }

claim_place_shows_example :
    (is_claimed 9 6 (claim_place struck 9 6).trip_places ≡ true)
    × (is_dismissed 9 6 (claim_place struck 9 6).trip_dismissals ≡ false)
claim_place_shows_example = claim_place_shows struck 9 6 9 6

abbrev covering : Db
covering = record db { trip_cities = record { trip_id = 9; city_id = 4; created_at = 1 } ∷ [] }

claim_for_city_trips_lists_example :
    is_claimed 9 6 (claim_for_city_trips covering 4 (5 ∷ 6 ∷ [])).trip_places ≡ true
claim_for_city_trips_lists_example = claim_for_city_trips_lists covering 4 (5 ∷ 6 ∷ []) 9 6

-- Two places are listed, and the one with two mentions stands first; a third is not.
abbrev venue : ℕ → Place
venue n = record {
  place_id = n;
  city_id = 4;
  name = n ∷ [];
  category = none;
  address = none;
  locality = none;
}

abbrev listing : Db
listing = record db {
  places = venue 5 ∷ venue 6 ∷ venue 7 ∷ [];
  trip_places = record { trip_id = 9; place_id = 5 } ∷ record { trip_id = 9; place_id = 6 } ∷ [];
}

abbrev mention : ℕ → PlaceMention
mention n = record {
  place_id = n;
  source = youtube;
  category = some 2;
  why_go = none;
  sentiment = recommended;
}

abbrev reading : Reading
reading = record {
  mentions = mention 6 ∷ mention 5 ∷ mention 6 ∷ mention 7 ∷ [];
  inside = λ c p. true;
  contains = λ t q. true;
  name_before = λ a b. true;
}

abbrev shown_place : ℕ → ℕ → ShortlistPlace
shown_place n mentions = record {
  place_id = n;
  city_id = 4;
  city_name = none;
  name = n ∷ [];
  address = none;
  category = some 2;
  why_go = none;
  mention_count = mentions;
  day_index = none;
}

abbrev whole_page : Shortlist
whole_page = record { total = 2; shown = shown_place 6 2 ∷ shown_place 5 1 ∷ [] }

abbrev any_of : ShortlistQuery
any_of = record { category = none; source = none; text = none; city_id = none }

page : shortlist reading listing 9 any_of 10 0 ≡ ok whole_page
unfolding shortlist get_trip city_label mention_facts
page = refl

shortlist-IsRanked_example : IsRanked listing 9 10 whole_page
shortlist-IsRanked_example = shortlist-IsRanked reading listing 9 any_of 10 0 {s = whole_page} page
