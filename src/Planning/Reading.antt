-- ===== src/Planning/Reading.antt =====
-- tp_backend/tp_api/route_planning: `filled_days` of service.py and `provisional_reasons` of schemas.py.
use flight_pricing.Base.{ℕ, ◌+◌, List, [], ◌∷◌, ◌++◌, map, ltb, ◌==◌, if◌then◌else◌, filter}
use flight_pricing.Models.{Db}
use flight_pricing.Models.Itinerary.{ItineraryItem}
use flight_pricing.Planning.Calendar.{pieces}

-- The days that some blocks reach, a day for each piece.
abbrev pub days_of : List ItineraryItem → List ℕ
days_of [] = []
days_of (r ∷ rs) = map (λ p. p.day) (pieces r.day_index r.start_min r.duration_min) ++ days_of rs

-- `filled_days`: a set, as a list that may name a day more than once.
unfoldable pub filled_days : Db → ℕ → List ℕ
filled_days db trip_id = days_of (filter (λ r. r.trip_id == trip_id) db.items)

pub data Reason : Type 0 where
  regular_hours_only : Reason

-- `provisional_reasons`, on the day that it is.
unfoldable pub provisional_reasons : ℕ → ℕ → List Reason
provisional_reasons today trip_date =
    if ltb (today + 7) trip_date then regular_hours_only ∷ [] else []
