-- ===== src/Routing/Warned.antt =====
-- What the day's check says: every block where the user put it, and a warning exactly where a visit
-- does not fit the hours.
use mathlib.Core.List.{append-nil, append_assoc}
use flight_pricing.Base.{
  ℕ, ◌+◌, ◌≤◌, ◌≡◌, ◌↔◌, refl, sym, ◌∙◌, true, false, List, [], ◌∷◌, ◌++◌, map, All, All-mono,
  arith, opt_eq, ◌≢◌, ◌⊎◌, ◌*◌, Option, none, some, ap, subst, if◌then◌else◌, ==_iff, inl, inr,
  Bool-cases, Option-cases,
}
use flight_pricing.Base.Sort.{sort_by, IsSorted, sort_by-IsSorted, All-sort_by, All-of_sort_by}
use flight_pricing.Routing.Hours.{
  Window, hours, closed, unknown, Point, Period, or_empty, end_of, first_window, window_for,
  minutes, closing,
}
use flight_pricing.Routing.DayPlan.{
  Stop, PlanWarning, DayPlan, before, in_time_order, window_of, warnings_in, block_in, plan_from,
  plan_day,
}

-- Each round adds the stop's block and its warnings.
abbrev pub flat_warnings : ℕ → List Stop → List PlanWarning
flat_warnings weekday [] = []
flat_warnings weekday (s ∷ ss) = warnings_in (window_of s weekday) s ++ flat_warnings weekday ss

plan_from-eq :
    (weekday : ℕ) (ss : List Stop) (acc : DayPlan)
    → ((plan_from weekday ss acc).blocks
        ≡ acc.blocks ++ map (λ s. block_in (window_of s weekday) s) ss)
      × ((plan_from weekday ss acc).warnings ≡ acc.warnings ++ flat_warnings weekday ss)
unfolding plan_from
plan_from-eq weekday [] acc = (sym (append-nil acc.blocks), sym (append-nil acc.warnings))
plan_from-eq weekday (s ∷ ss) acc =
    let w = window_of s weekday in
    let next : DayPlan = record {
      blocks = acc.blocks ++ block_in w s ∷ [];
      warnings = acc.warnings ++ warnings_in w s;
    } in
    let ih = plan_from-eq weekday ss next in
    (
      ih.0 ∙ append_assoc acc.blocks (block_in w s ∷ []) _,
      ih.1 ∙ append_assoc acc.warnings (warnings_in w s) (flat_warnings weekday ss),
    )

before_total : (a b : Stop) → before a b ≡ false → before b a ≡ true
before_total a b h = ground arith

-- A visit fits: the hours are known, it does not start before they do, and it ends by their end.
abbrev pub Fits : Window → Stop → Type 0
Fits (hours a b) s = (a ≤ s.start_min) × (s.start_min + s.duration_min ≤ b)
Fits closed s = ⊥
Fits unknown s = ⊥

-- A stop is passed over in silence exactly when its visit fits the day's window.
pub silent_iff_Fits : (w : Window) (s : Stop) → (warnings_in w s ≡ []) ↔ Fits w s
unfolding warnings_in
silent_iff_Fits (hours a b) s = ((λ e. ground arith), (λ f. ground arith))
silent_iff_Fits closed s = ((λ e. cc), (λ f. absurd f))
silent_iff_Fits unknown s = ((λ e. cc), (λ f. absurd f))

-- A plan holds the stops in time order, each at the time and for the minutes that the user gave, and
-- its warnings are those of the stops in that order.
pub plan_day_keeps :
    (stops : List Stop) (weekday : ℕ)
    → let plan = plan_day stops weekday in
      let order = in_time_order stops in
      IsSorted before order
      × (plan.blocks ≡ map (λ s. block_in (window_of s weekday) s) order)
      × (plan.warnings ≡ flat_warnings weekday order)
unfolding plan_day in_time_order
plan_day_keeps stops weekday =
    let parts =
      plan_from-eq weekday (sort_by before stops) (record { blocks = []; warnings = [] }) in
    (sort_by-IsSorted before before_total stops, parts.0, parts.1)

append_nil_iff : (xs ys : List PlanWarning) → (xs ++ ys ≡ []) ↔ ((xs ≡ []) × (ys ≡ []))
append_nil_iff [] ys = ((λ e. (refl, e)), (λ e. e.1))
append_nil_iff (x ∷ xs) ys = ((λ e. cc), (λ e. cc))

flat_warnings_iff :
    (weekday : ℕ) (ss : List Stop)
    → (flat_warnings weekday ss ≡ []) ↔ All (λ s. Fits (window_of s weekday) s) ss
flat_warnings_iff weekday [] = ((λ _. tt), (λ _. refl))
flat_warnings_iff weekday (s ∷ ss) =
    let w = window_of s weekday in
    let ends = append_nil_iff (warnings_in w s) (flat_warnings weekday ss) in
    let rest = flat_warnings_iff weekday ss in
    (
      (λ e. ((silent_iff_Fits w s).0 (ends.0 e).0, rest.0 (ends.0 e).1)),
      (λ f. ends.1 ((silent_iff_Fits w s).1 f.0, rest.1 f.1)),
    )

-- The period opens on this weekday.
pub record OpensOn (weekday : ℕ) (p : Period) : Type 0 where
  pub point : Point
  pub opening : p.opens ≡ some point
  pub on_day : point.day ≡ some weekday

-- The minute is before the period's close: on the same day by its clock, on another by midnight.
abbrev pub IsBeforeClose : ℕ → Option Point → ℕ → Type 0
IsBeforeClose weekday none end = end ≤ 24 * 60
IsBeforeClose weekday (some c) end =
    ((c.day ≡ some weekday) × (end ≤ closing c)) ⊎ ((c.day ≢ some weekday) × (end ≤ 24 * 60))

-- The visit lies in the first period that opens on the weekday.
abbrev pub FitsFirst : ℕ → Stop → List Period → Type 0
FitsFirst weekday s [] = ⊥
FitsFirst weekday s (p ∷ ps) =
    ((o : OpensOn weekday p) × (minutes o.point ≤ s.start_min)
      × IsBeforeClose weekday p.closes (s.start_min + s.duration_min))
    ⊎ ((OpensOn weekday p → ⊥) × FitsFirst weekday s ps)

-- One period that does not close is open all day; no periods say nothing.
abbrev pub FitsHours : ℕ → Stop → List Period → Type 0
FitsHours weekday s [] = ⊥
FitsHours weekday s (p ∷ []) = elim p.closes [
  | none ↦ s.start_min + s.duration_min ≤ 24 * 60
  | some c ↦ FitsFirst weekday s (p ∷ [])
]
FitsHours weekday s (p ∷ q ∷ ps) = FitsFirst weekday s (p ∷ q ∷ ps)

opt_eq_iff : (o : Option ℕ) (n : ℕ) → (opt_eq o (some n) ≡ true) ↔ (o ≡ some n)
opt_eq_iff none n = ((λ e. cc), (λ e. cc))
opt_eq_iff (some m) n = ((λ e. ap some ((==_iff m n).0 e)), (λ e. ground (arith, e)))

opens_on :
    (weekday : ℕ) (p : Period)
    → opt_eq (or_empty p.opens).day (some weekday) ≡ true
    → OpensOn weekday p
opens_on weekday p h = elim (Option-cases p.opens) [
  | inl nothing ↦ let k = rw nothing at h in cc
  | inr (x, got) ↦
      let k = rw got at h in
      record { point = x; opening = got; on_day = (opt_eq_iff x.day weekday).0 k }
]

opened_on :
    (weekday : ℕ) (p : Period)
    → OpensOn weekday p
    → opt_eq (or_empty p.opens).day (some weekday) ≡ true
opened_on weekday p o =
    subst (λ z. opt_eq (or_empty z).day (some weekday) ≡ true) (sym o.opening)
      ((opt_eq_iff o.point.day weekday).1 o.on_day)

close_iff :
    (weekday : ℕ) (o : Option Point) (end : ℕ)
    → (end ≤ end_of (or_empty o) weekday) ↔ IsBeforeClose weekday o end
close_iff weekday none end = ((λ e. e), (λ e. e))
close_iff weekday (some c) end = elim (Bool-cases (opt_eq c.day (some weekday))) [
  | inl same ↦
      let on = (opt_eq_iff c.day weekday).0 same in
      rw same
        ((λ e. inl (on, e)), (λ e. elim e [ inl here ↦ here.1 | inr past ↦ absurd (past.0 on) ]))
  | inr other ↦
      let off : c.day ≢ some weekday = λ e. let k = (opt_eq_iff c.day weekday).1 e in cc in
      rw other
        ((λ e. inr (off, e)), (λ e. elim e [ inl here ↦ absurd (off here.0) | inr past ↦ past.1 ]))
]

first_iff :
    (weekday : ℕ) (s : Stop) (ps : List Period)
    → Fits (first_window ps weekday) s ↔ FitsFirst weekday s ps
unfolding first_window
first_iff weekday s [] = ((λ f. f), (λ f. f))
first_iff weekday s (p ∷ ps) =
    let rest = first_iff weekday s ps in
    let ends = close_iff weekday p.closes (s.start_min + s.duration_min) in
    elim (Bool-cases (opt_eq (or_empty p.opens).day (some weekday))) [
      | inl today ↦
          let o = opens_on weekday p today in
          rw (today, first_window)
            (
              λ f.
                  inl
                    (o, subst (λ z. minutes (or_empty z) ≤ s.start_min) o.opening f.0, ends.0 f.1),
              λ e. elim e [
                | inl here ↦ (
                  subst (λ z. minutes (or_empty z) ≤ s.start_min) (sym here.0.opening) here.1,
                  ends.1 here.2,
                )
                | inr later ↦ absurd (later.0 o)
              ],
            )
      | inr other ↦
          let off : OpensOn weekday p → ⊥ = λ o. let k = opened_on weekday p o in cc in
          rw (other, first_window)
            (
              λ f. inr (off, rest.0 f),
              λ e. elim e [ inl here ↦ absurd (off here.0) | inr later ↦ rest.1 later.1 ],
            )
    ]

single_iff :
    (weekday : ℕ) (s : Stop) (p : Period) (o : Option Point)
    → Fits
        (if elim o [ none ↦ true | some c ↦ false ]
          then hours 0 (24 * 60)
          else first_window (p ∷ []) weekday)
        s
      ↔ elim o [
        | none ↦ s.start_min + s.duration_min ≤ 24 * 60
        | some c ↦ FitsFirst weekday s (p ∷ [])
      ]
single_iff weekday s p none = ((λ f. f.1), (λ f. (omega arith, f)))
single_iff weekday s p (some c) = first_iff weekday s (p ∷ [])

hours_iff :
    (weekday : ℕ) (s : Stop) (ps : List Period)
    → Fits (window_for ps weekday) s ↔ FitsHours weekday s ps
unfolding window_for
hours_iff weekday s [] = ((λ f. f), (λ f. f))
hours_iff weekday s (p ∷ []) = single_iff weekday s p p.closes
hours_iff weekday s (p ∷ q ∷ ps) = first_iff weekday s (p ∷ q ∷ ps)

-- A stop whose place's hours are known.
abbrev pub FitsStop : ℕ → Stop → Type 0
FitsStop weekday s = elim s.periods [ none ↦ ⊥ | some ps ↦ FitsHours weekday s ps ]

stop_iff : (weekday : ℕ) (s : Stop) → Fits (window_of s weekday) s ↔ FitsStop weekday s
stop_iff weekday s = loaded s.periods
  where
    loaded :
        (o : Option (List Period))
        → Fits (elim o [ none ↦ unknown | some ps ↦ window_for ps weekday ]) s
          ↔ elim o [ none ↦ ⊥ | some ps ↦ FitsHours weekday s ps ]
    loaded none = ((λ f. f), (λ f. f))
    loaded (some ps) = hours_iff weekday s ps

All-iff : (P Q : Stop → Type 0) (ss : List Stop) → ((s : Stop) → P s ↔ Q s) → All P ss ↔ All Q ss
All-iff P Q ss h = (All-mono P Q ss (λ s. (h s).0), All-mono Q P ss (λ s. (h s).1))

-- A day is passed without a warning exactly when every stop's visit lies within the first of its place's
-- periods that opens on that weekday: it starts no earlier than the period opens, and ends no later than
-- it closes, or than midnight where the close is on another day; or within the day, where the place has
-- a single period without a close. A place with no periods, or none that day, is warned about; so is a
-- visit that lies in a later period of the weekday only.
pub plan_day_silent :
    (stops : List Stop) (weekday : ℕ)
    → ((plan_day stops weekday).warnings ≡ []) ↔ All (λ s. FitsStop weekday s) stops
unfolding in_time_order
plan_day_silent stops weekday =
    let same = (plan_day_keeps stops weekday).2 in
    let order = flat_warnings_iff weekday (sort_by before stops) in
    let P = λ (s : Stop). Fits (window_of s weekday) s in
    let Q = λ (s : Stop). FitsStop weekday s in
    let described = All-iff P Q stops (λ s. stop_iff weekday s) in
    (
      (λ e. described.0 (All-of_sort_by P before stops (order.0 (sym same ∙ e)))),
      (λ f. same ∙ order.1 (All-sort_by P before stops (described.1 f))),
    )
