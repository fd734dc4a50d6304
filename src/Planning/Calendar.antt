-- ===== src/Planning/Calendar.antt =====
-- tp_backend/tp_api/route_planning/utils.py: the arithmetic of a trip's days. Dates are ordinals.
pub mod Covered
use flight_pricing.Base.{
  ℕ, zero, suc, ◌+◌, ◌-◌, ◌*◌, ◌/◌, ◌%◌, ◌≡◌, refl, Bool, true, false, ◌&&◌, Option, none, some,
  List, [], ◌∷◌, ltb, leb, ◌==◌, if◌then◌else◌, min,
}
use flight_pricing.Models.People.{Trip, Time}

-- `(trip.depart_date - trip.arrive_date).days + 1`; the table's check keeps the dates in order.
abbrev pub day_count : Trip → ℕ
day_count trip = trip.depart_date - trip.arrive_date + 1

abbrev pub minute_of : Option Time → ℕ → ℕ
minute_of none bound = bound
minute_of (some t) bound = t.hour * 60 + t.minute

-- `available_window`: the flights bound the first and the last day.
unfoldable pub available_window : Trip → ℕ → ℕ × ℕ
available_window trip day_index = (
  (if day_index == 0 then minute_of trip.arrive_time 0 else 0),
  (if day_index == day_count trip - 1 then minute_of trip.depart_time (24 * 60) else 24 * 60),
)

-- A part of a block: its day, and from and to in that day's minutes.
pub record Piece : Type 0 where
  pub day : ℕ
  pub at : ℕ
  pub until : ℕ

-- The loop of `pieces`, with fuel for its rounds.
unfoldable pub pieces_from : ℕ → ℕ → ℕ → ℕ → List Piece
pieces_from zero day at end = []
pieces_from (suc fuel) day at end =
    let more = pieces_from fuel (day + 1) 0 (end - 24 * 60) in
    record { day = day; at = at; until = min end (24 * 60) }
    ∷ (if leb end (24 * 60) then [] else more)

-- `pieces`: each round takes a day off the end, so a round for each day, and one, are enough.
unfoldable pub pieces : ℕ → ℕ → ℕ → List Piece
unfolding pieces_from
pieces day_index start_min duration_min =
    let end = start_min + duration_min in pieces_from (end / (24 * 60) + 1) day_index start_min end

-- `google_weekday`: from Python's numbering of weekdays, which starts on Monday, to Sunday first.
-- The ordinal 1 is a Monday, and `date.weekday` is `(ordinal + 6) % 7`.
unfoldable pub google_weekday : ℕ → ℕ
google_weekday ordinal = ((ordinal + 6) % 7 + 1) % 7

test_pieces :
    pieces 2 1380 1600
    ≡ record { day = 2; at = 1380; until = 1440 }
      ∷ record { day = 3; at = 0; until = 1440 }
      ∷ record { day = 4; at = 0; until = 100 }
      ∷ []
unfolding pieces
test_pieces = refl
