-- ===== src/Drafting/Judged.antt =====
-- tp_backend/tp_ingestions/plan/draft.py, `problems`: the day check's verdict on a plan, by day.
use mathlib.Core.List.{reverse}
use flight_pricing.Base.{
  ℕ, ◌+◌, all, ltb, length, Bool, true, false, Option, none, some, List, [], ◌∷◌, ◌++◌, ◌==◌, find,
  get_elem?, not, if◌then◌else◌,
}
use flight_pricing.Base.Result.{Result, ok, raise_if, ◌>>◌, index_error}
use flight_pricing.Base.Text.{Text, codes}
use flight_pricing.Models.People.{Trip}
use flight_pricing.Planning.Calendar.{google_weekday}
use flight_pricing.Routing.Hours.{Period}
use flight_pricing.Routing.DayPlan.{Stop, Block, Code, no_hours, PlanWarning, hhmm, plan_day}
use flight_pricing.Drafting.Reply.{Chosen, Plan, Candidate}

-- A line of the verdict: the candidate, whether it is closed all day, and the text.
pub record Problem : Type 0 where
  pub index : ℕ
  pub allday : Bool
  pub text : Text

abbrev pub Problems : Type 0
Problems = List (ℕ × List Problem)

-- `places[i]`, of an index that `is_indexed` let through.
abbrev pub stop_of : List Candidate → (ℕ → Option (List Period)) → Chosen → Option Stop
stop_of places hours c = elim (get_elem? places c.index) [
  | none ↦ none
  | some p ↦ some (record {
    place_id = p.place_id;
    name = p.name;
    start_min = c.start;
    duration_min = c.duration;
    periods = hours p.place_id;
    block_id = none;
  })
]

abbrev pub add_stop : Option Stop → List Stop → List Stop
add_stop none ss = ss
add_stop (some s) ss = s ∷ ss

abbrev pub stops_of : List Candidate → (ℕ → Option (List Period)) → List Chosen → List Stop
stops_of places hours [] = []
stops_of places hours (c ∷ cs) = add_stop (stop_of places hours c) (stops_of places hours cs)

-- `at`: the last pick of the place.
abbrev pub is_at : List Candidate → ℕ → Chosen → Bool
is_at places place_id c = elim (get_elem? places c.index) [
  | none ↦ false
  | some p ↦ p.place_id == place_id
]

abbrev pub must_fix : Code → Bool
must_fix no_hours = false
must_fix _ = true

abbrev pub span : ℕ → ℕ → Text
span a b = hhmm a ++ (45 ∷ hhmm b)

abbrev pub fix_of : Option ℕ → Option ℕ → Text
fix_of (some a) (some b) = codes "is open only " ++ span a b ++ codes " — move it inside that"
fix_of (some a) none = codes "is open only " ++ hhmm a ++ (45 ∷ codes " — move it inside that")
fix_of none b = codes "is closed all day — replace it, no time works"

abbrev pub is_none {ℓ} : {A : Type ℓ} → Option A → Bool
is_none none = true
is_none (some a) = false

abbrev pub problem_of : ℕ → Block → Problem
problem_of i b = record {
  index = i;
  allday = is_none b.open_from;
  text =
      b.name
      ++ codes " is booked "
      ++ span b.start_min b.end_min
      ++ codes " but "
      ++ fix_of b.open_from b.open_to;
}

-- One warning's line; `block` is the last block of its place.
abbrev pub line_of : List Candidate → List Chosen → List Block → PlanWarning → List Problem
line_of places picks blocks w =
    if not (must_fix w.code)
    then []
    else elim (find (λ b. b.place_id == w.place_id) (reverse blocks)) [
      | none ↦ []
      | some b ↦ elim (find (is_at places w.place_id) (reverse picks)) [
        | none ↦ []
        | some c ↦ problem_of c.index b ∷ []
      ]
    ]

abbrev pub lines_of : List Candidate → List Chosen → List Block → List PlanWarning → List Problem
lines_of places picks blocks [] = []
lines_of places picks blocks (w ∷ ws) =
    line_of places picks blocks w ++ lines_of places picks blocks ws

-- Whether every `places[i]` is there: the first statement of `problems` looks all of them up, and raises
-- where one is not, before the day check looks them up again.
abbrev pub is_indexed : List Candidate → Plan → Bool
is_indexed places = all (λ p. all (λ c. ltb c.index (length places)) p.1)

-- The verdict on one day.
unfoldable pub day_problems :
    Trip → List Candidate → (ℕ → Option (List Period)) → ℕ → List Chosen → List Problem
day_problems trip places hours day picks =
    let plan = plan_day (stops_of places hours picks) (google_weekday (trip.arrive_date + day)) in
    lines_of places picks plan.blocks plan.warnings

-- A day without lines has no entry.
abbrev pub add_day : ℕ → List Problem → Problems → Problems
add_day day [] rest = rest
add_day day (l ∷ ls) rest = (day, l ∷ ls) ∷ rest

-- `problems` of a plan whose places are there; `hours` are the loaded hours.
unfoldable pub problems : Trip → Plan → List Candidate → (ℕ → Option (List Period)) → Problems
unfolding day_problems
problems trip [] places hours = []
problems trip ((day, picks) ∷ ps) places hours =
    add_day day (day_problems trip places hours day picks) (problems trip ps places hours)

-- `problems`
unfoldable pub check_plan :
    Trip → Plan → List Candidate → (ℕ → Option (List Period)) → Result Problems
check_plan trip plan places hours = do
  raise_if (not (is_indexed places plan)) index_error
  ok (problems trip plan places hours)
