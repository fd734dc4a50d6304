-- ===== src/Drafting/Reply.antt =====
-- tp_backend/tp_ingestions/plan/draft.py: what is kept of a model's reply.
use flight_pricing.Base.{
  ℕ, ◌+◌, ◌*◌, ◌/◌, ◌%◌, ◌-◌, Bool, false, not, ◌&&◌, ◌||◌, Option, none, some, List, [], ◌∷◌, ◌++◌,
  ltb, leb, ◌==◌, if◌then◌else◌, any, member, min, max, take,
}
use flight_pricing.Base.Int.{ℤ, pos, negsuc, pos_part, sub_ℕ}
use flight_pricing.Base.Sort.{sort_by}
use flight_pricing.Base.Text.{Text, text_eq}
use flight_pricing.Models.People.{Trip}
use flight_pricing.Planning.Calendar.{available_window}

-- An entry of the reply's JSON: not there, null (or no number, for an index or a day), or an integer.
pub data Field : Type 0 where
  missing null : Field
  given : ℤ → Field

pub record Pick : Type 0 where
  pub index : Field
  pub start_min : Field
  pub duration_min : Field

pub record ReplyDay : Type 0 where
  pub day : Field
  pub picks : List Pick

-- A kept pick: which candidate, from when and for how long.
pub record Chosen : Type 0 where
  pub index : ℕ
  pub start : ℕ
  pub duration : ℕ

-- The dict of kept picks by day, in its order.
abbrev pub Plan : Type 0
Plan = List (ℕ × List Chosen)

-- A row of the shortlist, as far as it is read here.
pub record Candidate : Type 0 where
  pub place_id : ℕ
  pub name : Text
  pub city_name : Option Text
  pub in_itinerary : Bool

abbrev pub slot_min : ℕ
slot_min = 30

abbrev pub cap : ℕ
cap = 5

-- `window`
unfoldable pub window : Trip → ℕ → ℕ × ℕ
window trip day_index =
    let w = available_window trip day_index in (max w.0 (8 * 60), min w.1 (23 * 60))

-- `snap`: the nearest slot, and of two the even one, as Python rounds.
unfoldable pub snap_nat : ℕ → ℕ
snap_nat m =
    let q = m / slot_min in
    let r = m % slot_min in
    if ltb r 15 || (r == 15 && q % 2 == 0) then q * slot_min else (q + 1) * slot_min

unfoldable pub snap : ℤ → ℤ
unfolding snap_nat
snap (pos m) = pos (snap_nat m)
snap (negsuc m) = sub_ℕ 0 (snap_nat (m + 1))

-- `max(low, snap(it.get(key, default)))`; null counts as 0.
unfoldable pub snapped : ℕ → ℕ → Field → ℕ
unfolding snap
snapped low default missing = max low (pos_part (snap (pos default)))
snapped low default null = max low (pos_part (snap (pos 0)))
snapped low default (given m) = max low (pos_part (snap m))

abbrev pub day_of : Field → List ℕ → Option ℕ
day_of (given (pos d)) open_days = if member d open_days then some d else none
day_of _ open_days = none

abbrev pub has_pair : ℕ → ℕ → List (ℕ × ℕ) → Bool
has_pair d i = any (λ p. p.0 == d && p.1 == i)

-- The tests on an index.
abbrev pub index_of : Field → ℕ → List ℕ → ℕ → List (ℕ × ℕ) → Option ℕ
index_of (given (pos i)) n seen day shut =
    if not (ltb i n) || member i seen || has_pair day i shut then none else some i
index_of _ n seen day shut = none

abbrev pub fitted : ℕ → ℕ → ℕ → ℕ → Option Chosen
fitted i start dur last =
    if ltb last (start + dur)
    then none
    else some (record { index = i; start = start; duration = dur })

-- `-(-first // SLOT_MIN) * SLOT_MIN`
abbrev pub floor_of : ℕ → ℕ
floor_of first = (first + (slot_min - 1)) / slot_min * slot_min

-- One pick, on a day with this window.
unfoldable pub pick_one : ℕ × ℕ → ℕ → ℕ → List (ℕ × ℕ) → List ℕ → Pick → Option Chosen
unfolding snapped
pick_one w n day shut seen it = elim (index_of it.index n seen day shut) [
  | none ↦ none
  | some i ↦
      let floor = floor_of w.0 in
      fitted i (snapped floor floor it.start_min) (snapped slot_min 60 it.duration_min) w.1
]

-- The inner loop: the picks of a day, and the indices seen.
unfoldable pub pick_all : ℕ × ℕ → ℕ → ℕ → List (ℕ × ℕ) → List ℕ → List Pick → List Chosen × List ℕ
unfolding pick_one
pick_all w n day shut seen [] = ([], seen)
pick_all w n day shut seen (it ∷ its) = elim (pick_one w n day shut seen it) [
  | none ↦ pick_all w n day shut seen its
  | some c ↦ let rest = pick_all w n day shut (c.index ∷ seen) its in (c ∷ rest.0, rest.1)
]

abbrev pub earlier : Chosen → Chosen → Bool
earlier a b = leb a.start b.start

-- `out[day] = picks`: a key that is there keeps its place.
unfoldable pub put {ℓ} : {A : Type ℓ} → ℕ → A → List (ℕ × A) → List (ℕ × A)
put day picks [] = (day, picks) ∷ []
put day picks ((d, old) ∷ out) =
    let rest = put day picks out in if d == day then (d, picks) ∷ out else (d, old) ∷ rest

-- The outer loop, on the picks so far and the indices seen.
unfoldable pub keep_from : Trip → ℕ → List ℕ → List (ℕ × ℕ) → Plan → List ℕ → List ReplyDay → Plan
unfolding pick_all put window
keep_from trip n open_days shut out seen [] = out
keep_from trip n open_days shut out seen (d ∷ ds) = elim (day_of d.day open_days) [
  | none ↦ keep_from trip n open_days shut out seen ds
  | some day ↦
      let got = pick_all (window trip day) n day shut seen d.picks in
      keep_from trip n open_days shut (put day (take cap (sort_by earlier got.0)) out) got.1 ds
]

-- `keep`
unfoldable pub keep : Trip → List ReplyDay → ℕ → List ℕ → List (ℕ × ℕ) → Plan
unfolding keep_from
keep trip reply n open_days shut = keep_from trip n open_days shut [] [] reply

-- `off_city`, of the cities that the user put the days in.
abbrev pub is_elsewhere : Option Text → Text → Bool
is_elsewhere none name = false
is_elsewhere (some c) name = not (text_eq c name)

abbrev pub strays : ℕ → ℕ → Text → List Candidate → List (ℕ × ℕ)
strays day i name [] = []
strays day i name (p ∷ ps) =
    (if is_elsewhere p.city_name name then (day, i) ∷ [] else []) ++ strays day (i + 1) name ps

unfoldable pub off_city : List Candidate → List ℕ → (ℕ → Option Text) → List (ℕ × ℕ)
off_city places [] named = []
off_city places (d ∷ ds) named =
    elim (named d) [ none ↦ [] | some name ↦ strays d 0 name places ] ++ off_city places ds named
