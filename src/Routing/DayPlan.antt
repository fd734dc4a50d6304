-- ===== src/Routing/DayPlan.antt =====
-- tp_backend/libs/routing/plan.py: one day's stops, checked at the times that the user pinned.
use flight_pricing.Base.{
  ℕ, ◌+◌, ◌-◌, ◌/◌, ◌%◌, ◌≡◌, refl, Bool, ◌&&◌, ◌||◌, Option, none, some, List, [], ◌∷◌, ◌++◌, ltb,
  leb, ◌==◌, if◌then◌else◌,
}
use flight_pricing.Base.Sort.{sort_by}
use flight_pricing.Base.Text.{Text}
use flight_pricing.Routing.Hours.{Period, Window, hours, closed, unknown, window_for}

-- `periods` is `none` where the hours were never fetched, and empty where Places publishes none.
pub record Stop : Type 0 where
  pub place_id : ℕ
  pub name : Text
  pub start_min : ℕ
  pub duration_min : ℕ
  pub periods : Option (List Period)
  pub block_id : Option ℕ

pub record Block : Type 0 where
  pub place_id : ℕ
  pub name : Text
  pub start_min : ℕ
  pub end_min : ℕ
  pub duration_min : ℕ
  pub open_from : Option ℕ
  pub open_to : Option ℕ
  pub block_id : Option ℕ

pub data Code : Type 0 where
  closed_today opens_later closes_before_done no_hours : Code

-- The entries of `detail`, by the code that carries them.
pub data Detail : Type 0 where
  named : Text → Detail
  early : Text → Text → Text → ℕ → Detail
  late : Text → Text → ℕ → Text → Detail

pub record PlanWarning : Type 0 where
  pub code : Code
  pub place_id : ℕ
  pub detail : Detail
  pub block_id : Option ℕ

pub record DayPlan : Type 0 where
  pub blocks : List Block
  pub warnings : List PlanWarning

-- `:02d` of a number below 100.
abbrev pub two_digits : ℕ → Text
two_digits n = (48 + n / 10) ∷ (48 + n % 10) ∷ []

-- HH:MM of the minutes past midnight.
unfoldable pub hhmm : ℕ → Text
hhmm m = two_digits (m / 60 % 24) ++ (58 ∷ two_digits (m % 60))

-- `block_id or ""`: no id sorts before any.
abbrev pub id_key : Option ℕ → ℕ
id_key none = 0
id_key (some n) = n

abbrev pub before : Stop → Stop → Bool
before a b =
    ltb a.start_min b.start_min
    || (a.start_min == b.start_min
        && (ltb a.place_id b.place_id
            || (a.place_id == b.place_id && leb (id_key a.block_id) (id_key b.block_id))))

unfoldable pub in_time_order : List Stop → List Stop
in_time_order = sort_by before

abbrev pub window_of : Stop → ℕ → Window
window_of s weekday = elim s.periods [ none ↦ unknown | some ps ↦ window_for ps weekday ]

abbrev pub warn : Code → Stop → Detail → PlanWarning
warn code s detail = record {
  code = code;
  place_id = s.place_id;
  detail = detail;
  block_id = s.block_id;
}

-- The warnings and the block of one round of the loop.
unfoldable pub warnings_in : Window → Stop → List PlanWarning
warnings_in unknown s = warn no_hours s (named s.name) ∷ []
warnings_in closed s = warn closed_today s (named s.name) ∷ []
warnings_in (hours open_from open_to) s =
    (if ltb s.start_min open_from
      then warn opens_later s
          (early s.name (hhmm s.start_min) (hhmm open_from) (open_from - s.start_min))
        ∷ []
      else [])
    ++ (if ltb open_to (s.start_min + s.duration_min)
        then warn closes_before_done s
            (late s.name (hhmm s.start_min) s.duration_min (hhmm open_to))
          ∷ []
        else [])

abbrev pub bounds : Window → Option ℕ × Option ℕ
bounds (hours a b) = (some a, some b)
bounds closed = (none, none)
bounds unknown = (none, none)

abbrev pub block_in : Window → Stop → Block
block_in w s = record {
  place_id = s.place_id;
  name = s.name;
  start_min = s.start_min;
  end_min = s.start_min + s.duration_min;
  duration_min = s.duration_min;
  open_from = (bounds w).0;
  open_to = (bounds w).1;
  block_id = s.block_id;
}

-- The loop of `plan_day`, on the blocks and warnings so far.
unfoldable pub plan_from : ℕ → List Stop → DayPlan → DayPlan
plan_from weekday [] acc = acc
plan_from weekday (s ∷ ss) acc =
    let w = window_of s weekday in
    plan_from weekday ss (record {
      blocks = acc.blocks ++ block_in w s ∷ [];
      warnings = acc.warnings ++ warnings_in w s;
    })

unfoldable pub plan_day : List Stop → ℕ → DayPlan
unfolding plan_from
plan_day stops weekday =
    plan_from weekday (in_time_order stops) (record { blocks = []; warnings = [] })

test_hhmm : hhmm 1445 ≡ 48 ∷ 48 ∷ 58 ∷ 48 ∷ 53 ∷ []
unfolding hhmm
test_hhmm = refl
