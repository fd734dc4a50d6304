-- ===== src/Drafting/Tests.antt =====
-- A trip of two days with a block on the first, and a model that asks for too much.
use flight_pricing.Base.{true, ℕ, ◌≡◌, refl, false, none, some, List, [], ◌∷◌, arith}
use flight_pricing.Base.Int.{pos}
use flight_pricing.Base.Result.{ok}
use flight_pricing.Base.Text.{codes}
use flight_pricing.Models.{Db}
use flight_pricing.Models.People.{Trip}
use flight_pricing.Models.Itinerary.{place, Place, ItineraryItem}
use flight_pricing.Planning.Calendar.{available_window}
use flight_pricing.Routing.DayPlan.{plan_day, in_time_order, warnings_in}
use flight_pricing.Drafting.Reply.{
  missing, null, given, Pick, ReplyDay, Plan, Candidate, keep, off_city, snap,
}
use flight_pricing.Drafting.Judged.{check_plan, Problems, problems}
use flight_pricing.Drafting.Rounds.{Asked, Model, propose, decimal}
use flight_pricing.Drafting.Kept.{IsKept, keep-IsKept}
use flight_pricing.Drafting.Proposed.{IsBest, Answers, propose-IsBest, propose-ok}
use flight_pricing.Drafting.Task.{Around, draft}
use flight_pricing.Drafting.Written.{IsSteady, IsDone, draft-IsExtended}

abbrev trip : Trip
trip = record {
  trip_id = 9;
  city_id = 4;
  name = none;
  arrive_date = 100;
  arrive_time = none;
  depart_date = 101;
  depart_time = some (record { hour = 18; minute = 0 });
  extra_details = none;
  deleted = false;
}

abbrev pick : ℕ → ℕ → ℕ → Pick
pick i start dur = record {
  index = given (pos i);
  start_min = given (pos start);
  duration_min = given (pos dur);
}

-- A repeat, a day that is not open, an index out of range, and a pick that outlasts the window.
abbrev reply : List ReplyDay
reply =
    record { day = given (pos 0); picks = pick 0 600 60 ∷ [] }
    ∷ record {
      day = given (pos 1);
      picks =
          pick 1 725 44
          ∷ record { index = given (pos 0); start_min = missing; duration_min = null }
          ∷ pick 1 900 60
          ∷ pick 7 900 60
          ∷ pick 2 1070 60
          ∷ [];
    }
    ∷ []

kept :
    keep trip reply 3 (1 ∷ []) []
    ≡ (
      1,
      record { index = 0; start = 480; duration = 30 }
          ∷ record { index = 1; start = 720; duration = 30 }
          ∷ [],
    )
      ∷ []
unfolding keep available_window
kept = refl

-- Halves go to the even slot, and no time is below zero.
halves : snap (pos 45) ≡ pos 60
unfolding snap
halves = refl

halves_even : snap (pos 75) ≡ pos 60
unfolding snap
halves_even = refl

tens : decimal 120 ≡ codes "120"
tens = refl

keep-IsKept_example : IsKept trip 3 (1 ∷ []) [] (keep trip reply 3 (1 ∷ []) [])
keep-IsKept_example = keep-IsKept trip reply 3 (1 ∷ []) []

abbrev candidate : ℕ → Candidate
candidate n = record { place_id = n; name = codes "A"; city_name = none; in_itinerary = false }

abbrev a : Asked
a = record {
  trip = trip;
  places = candidate 5 ∷ candidate 6 ∷ candidate 7 ∷ [];
  open_days = 1 ∷ [];
  hours = λ r p. none;
}

abbrev ask : Model
ask r feedback = ok reply

abbrev plan : Plan
plan = keep trip reply 3 (1 ∷ []) []

proposed : propose a (λ d. none) ask ≡ ok (plan, 1, [])
unfolding propose check_plan problems keep plan_day in_time_order off_city available_window
    warnings_in
proposed = refl

propose-IsBest_example : IsBest a ask (off_city a.places a.open_days (λ d. none)) (plan, 1, [])
propose-IsBest_example = propose-IsBest a (λ d. none) ask {done = (plan, 1, [])} proposed

answers : Answers ask
answers r feedback = (reply, refl)

propose-ok_example : (done : Plan × ℕ × Problems) × (propose a (λ d. none) ask ≡ ok done)
propose-ok_example = propose-ok a (λ d. none) ask answers

abbrev stored : ItineraryItem
stored = record {
  id = 1;
  trip_id = 9;
  kind = place;
  place_id = some 6;
  block_id = 2;
  title = none;
  description = none;
  day_index = 0;
  start_min = 600;
  duration_min = 60;
  reference_url = none;
}

abbrev row : ℕ → Place
row n = record {
  place_id = n;
  city_id = 4;
  name = codes "A";
  category = none;
  address = none;
  locality = none;
}

abbrev db : Db
db = record {
  users = [];
  cities =
      record {
        city_id = 4;
        name = codes "R";
        country = none;
        timezone = none;
        lat = none;
        lon = none;
      }
      ∷ [];
  trips = trip ∷ [];
  user_trips = [];
  expenses = [];
  settlements = [];
  places = row 5 ∷ row 6 ∷ row 7 ∷ [];
  items = stored ∷ [];
  trip_days = [];
  trip_places =
      record { trip_id = 9; place_id = 5 }
      ∷ record { trip_id = 9; place_id = 6 }
      ∷ record { trip_id = 9; place_id = 7 }
      ∷ [];
  trip_dismissals = [];
  trip_cities = [];
  place_queries = [];
}

abbrev env : Around
env = record {
  reading = record {
    mentions = [];
    inside = λ c p. false;
    contains = λ t q. false;
    name_before = λ s t. true;
  };
  hours = λ r p. none;
  ask = ask;
  between = λ d. d;
  fresh = 3;
  id = 2;
}

steady : IsSteady env db trip
steady = record {
  answers = answers;
  same_trip = refl;
  still_listed = λ p h. h;
  fresh_ids = (omega arith, tt);
}

draft-IsExtended_example : IsDone env db trip (draft env db 9)
draft-IsExtended_example = draft-IsExtended env db trip refl steady
