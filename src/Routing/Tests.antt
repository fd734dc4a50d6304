-- ===== src/Routing/Tests.antt =====
-- A day of three visits, and the theorems of the day's check at it.
use flight_pricing.Base.{ℕ, ◌≤◌, ◌≡◌, ◌↔◌, refl, none, some, List, [], ◌∷◌, All, arith}
use flight_pricing.Routing.Hours.{Point, Period, hours, window_for, window_for-IsDayWindow}
use flight_pricing.Routing.DayPlan.{Stop, in_time_order, plan_day, plan_from, warnings_in}
use flight_pricing.Routing.Warned.{FitsStop, plan_day_silent}

abbrev at_hour : ℕ → ℕ → Point
at_hour day hour = record { day = some day; hour = some hour; minute = none }

-- Open on weekday 5 from 9 to 17, and from 20 into the next day.
abbrev week : List Period
week =
    record { opens = some (at_hour 5 9); closes = some (at_hour 5 17) }
    ∷ record { opens = some (at_hour 6 20); closes = some (at_hour 0 2) }
    ∷ []

abbrev visit : ℕ → ℕ → Stop
visit place_id start = record {
  place_id = place_id;
  name = 65 ∷ [];
  start_min = start;
  duration_min = 60;
  periods = some week;
  block_id = some place_id;
}

past_midnight : window_for week 6 ≡ hours 1200 1440
unfolding window_for
past_midnight = refl

window_for-IsDayWindow_example : (540 ≤ 1020) × (1020 ≤ 1440)
unfolding window_for
window_for-IsDayWindow_example =
    window_for-IsDayWindow week 5
      ((omega arith, λ _. (omega arith, omega arith)), ((omega arith, λ e. cc), tt))

abbrev day : List Stop
day = visit 2 900 ∷ visit 1 600 ∷ []

plan_day_silent_example : ((plan_day day 5).warnings ≡ []) ↔ All (λ s. FitsStop 5 s) day
plan_day_silent_example = plan_day_silent day 5

quiet_day : (plan_day day 5).warnings ≡ []
unfolding plan_day plan_from in_time_order warnings_in window_for
quiet_day = refl
