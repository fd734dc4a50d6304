-- ===== src/Routing/Hours.antt =====
-- tp_backend/libs/routing/hours.py, `window_for`: a weekday's opening window from Google's periods.
-- A field is `none` where the JSON object has no such key.
use flight_pricing.Base.{
  ℕ, ◌+◌, ◌*◌, ◌≤◌, ◌≡◌, Bool, true, false, not, Option, none, some, List, [], ◌∷◌, opt_eq,
  if◌then◌else◌, All, arith, Bool-cases, inl, inr,
}

pub record Point : Type 0 where
  pub day : Option ℕ
  pub hour : Option ℕ
  pub minute : Option ℕ

pub record Period : Type 0 where
  pub opens : Option Point
  pub closes : Option Point

-- `tuple[int, int] | Literal["closed"] | None`
pub data Window : Type 0 where
  hours : ℕ → ℕ → Window
  closed : Window
  unknown : Window

abbrev pub get_or : Option ℕ → ℕ → ℕ
get_or none d = d
get_or (some n) d = n

-- `p.get(...) or {}`
abbrev pub or_empty : Option Point → Point
or_empty none = record { day = none; hour = none; minute = none }
or_empty (some p) = p

-- The end of the window of a period: a close on another day has rolled past midnight.
abbrev pub end_of : Point → ℕ → ℕ
end_of c weekday =
    if opt_eq c.day (some weekday) then get_or c.hour 24 * 60 + get_or c.minute 0 else 24 * 60

-- The loop over the periods.
unfoldable pub first_window : List Period → ℕ → Window
first_window [] weekday = closed
first_window (p ∷ ps) weekday =
    let o = or_empty p.opens in
    let rest = first_window ps weekday in
    if not (opt_eq o.day (some weekday))
    then rest
    else hours (get_or o.hour 0 * 60 + get_or o.minute 0) (end_of (or_empty p.closes) weekday)

-- A single period without a close runs all day.
abbrev runs_all_day : List Period → Bool
runs_all_day (p ∷ []) = elim p.closes [ none ↦ true | some c ↦ false ]
runs_all_day _ = false

unfoldable pub window_for : List Period → ℕ → Window
unfolding first_window
window_for [] weekday = unknown
window_for (p ∷ ps) weekday =
    let rest = first_window (p ∷ ps) weekday in
    if runs_all_day (p ∷ ps) then hours 0 (24 * 60) else rest

abbrev pub minutes : Point → ℕ
minutes p = get_or p.hour 0 * 60 + get_or p.minute 0

abbrev pub closing : Point → ℕ
closing p = get_or p.hour 24 * 60 + get_or p.minute 0

-- A period as Google documents it: it opens within the day, and a close on the day of its open comes
-- no earlier, and within the day.
abbrev pub IsPeriod : Period → Type 0
IsPeriod p =
    (minutes (or_empty p.opens) ≤ 24 * 60)
    × (opt_eq (or_empty p.opens).day (or_empty p.closes).day ≡ true
        → (minutes (or_empty p.opens) ≤ closing (or_empty p.closes))
          × (closing (or_empty p.closes) ≤ 24 * 60))

abbrev pub IsDayWindow : Window → Type 0
IsDayWindow (hours a b) = (a ≤ b) × (b ≤ 24 * 60)
IsDayWindow closed = Unit
IsDayWindow unknown = Unit

opt_eq_shared :
    (a b : Option ℕ) (c : ℕ)
    → opt_eq a (some c) ≡ true
    → opt_eq b (some c) ≡ true
    → opt_eq a b ≡ true
opt_eq_shared none b c h k = cc
opt_eq_shared (some a) none c h k = cc
opt_eq_shared (some a) (some b) c h k = ground arith

first_window-IsDayWindow :
    (ps : List Period) (weekday : ℕ) → All IsPeriod ps → IsDayWindow (first_window ps weekday)
unfolding first_window
first_window-IsDayWindow [] weekday h = tt
first_window-IsDayWindow (p ∷ ps) weekday h =
    let o = or_empty p.opens in
    let c = or_empty p.closes in
    elim (Bool-cases (opt_eq o.day (some weekday))) [
      | inr other ↦ rw (other, first_window) (first_window-IsDayWindow ps weekday h.1)
      | inl today ↦ elim (Bool-cases (opt_eq c.day (some weekday))) [
        | inr later ↦ rw (today, later, first_window) (h.0.0, omega arith)
        | inl same ↦
            rw (today, same, first_window) (h.0.1 (opt_eq_shared o.day c.day weekday today same))
      ]
    ]

-- For periods as Google documents them, a window never ends before it starts, nor after midnight.
pub window_for-IsDayWindow :
    (ps : List Period) (weekday : ℕ) → All IsPeriod ps → IsDayWindow (window_for ps weekday)
unfolding window_for
window_for-IsDayWindow [] weekday h = tt
window_for-IsDayWindow (p ∷ ps) weekday h = elim (Bool-cases (runs_all_day (p ∷ ps))) [
  | inl day ↦ rw (day, window_for) (omega arith, omega arith)
  | inr parts ↦ rw (parts, window_for) (first_window-IsDayWindow (p ∷ ps) weekday h)
]
