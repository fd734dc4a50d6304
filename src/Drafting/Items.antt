-- ===== src/Drafting/Items.antt =====
-- The items of a kept plan's days pass the checks of `replace_days`.
use flight_pricing.Base.{
  ℕ, zero, suc, ◌+◌, ◌/◌, ◌≤◌, ◌<◌, ◌≡◌, refl, ap, subst, true, false, not, none, some, List, [],
  ◌∷◌, length, get_elem?, All, any, arith, inl, inr, Option-cases,
}
use flight_pricing.Base.Result.{ok}
use flight_pricing.Models.{Db}
use flight_pricing.Models.People.{Trip}
use flight_pricing.Models.Itinerary.{place}
use flight_pricing.Planning.Calendar.{pieces_from, pieces, day_count, available_window}
use flight_pricing.Planning.Itinerary.{
  ItemIn, validate_item, in_window, check_item, check_items, blocks_of, places_of, is_listed,
}
use flight_pricing.Drafting.Reply.{Chosen, Candidate, window}
use flight_pricing.Drafting.Picked.{IsFit}
use flight_pricing.Drafting.Task.{range_from, raw_item, free_place, items_of}

-- The item that a pick becomes.
abbrev pub pick_item : ℕ → Chosen → ℕ → ItemIn
pick_item p c b = record {
  kind = place;
  place_id = some p;
  block_id = b;
  title = none;
  description = none;
  start_min = c.start;
  duration_min = c.duration;
  reference_url = none;
}

validate_item-pick :
    (p : ℕ) (c : Chosen) (fresh : ℕ)
    → c.start < 1440
    → 1 ≤ c.duration
    → validate_item (raw_item p c) fresh ≡ ok (pick_item p c fresh)
unfolding validate_item
validate_item-pick p c fresh h k = ground (arith, h, k)

-- An item stays inside a window, of at most a waking day.
abbrev pub IsInside : ℕ × ℕ → ItemIn → Type 0
IsInside w i = (w.0 ≤ i.start_min) × (i.start_min + i.duration_min ≤ w.1)

-- The items of a day as `replace_days` wants them, with block ids from `fresh` on.
pub record AreGood (db : Db) (trip_id fresh : ℕ) (w : ℕ × ℕ) (is : List ItemIn) : Type 0 where
  pub inside : All (IsInside w) is
  pub counted : blocks_of is ≡ range_from fresh (length is)
  pub listed : any (λ p. not (is_listed db trip_id p)) (places_of is) ≡ false

All-at {ℓ κ} :
    {A : Type ℓ} (P : A → Type κ) (xs : List A) (i : ℕ) {x : A}
    → All P xs
    → get_elem? xs i ≡ some x
    → P x
All-at P [] i h e = cc
All-at P (y ∷ xs) zero {x} h e = let same : y ≡ x = cc in subst P same h.0
All-at P (y ∷ xs) (suc i) h e = All-at P xs i h.1 e

free_place-listed :
    (db : Db) (trip_id : ℕ) (places : List Candidate) (taken : List ℕ) (c : Chosen) {p : ℕ}
    → All (λ q. is_listed db trip_id q.place_id ≡ true) places
    → free_place places taken c ≡ some p
    → is_listed db trip_id p ≡ true
free_place-listed db trip_id places taken c {p} h e =
    elim (Option-cases (get_elem? places c.index)) [
      | inl outside ↦ ground (arith, e)
      | inr (q, there) ↦
          let listed =
            All-at (λ q. is_listed db trip_id q.place_id ≡ true) places c.index h there in
          let same : q.place_id ≡ p = ground (arith, e, there) in
          subst (λ n. is_listed db trip_id n ≡ true) same listed
    ]

window_last : (trip : Trip) (day : ℕ) → (window trip day).1 ≤ 1380
unfolding window
window_last trip day = omega arith

pub items_of-AreGood :
    (db : Db) (trip_id n day : ℕ) (trip : Trip) (shut : List (ℕ × ℕ)) (places : List Candidate)
    (taken : List ℕ) (fresh : ℕ) (cs : List Chosen)
    → All (λ q. is_listed db trip_id q.place_id ≡ true) places
    → All (IsFit (window trip day) n day shut) cs
    → (is : List ItemIn) × (items_of places taken fresh cs ≡ ok is)
      × AreGood db trip_id fresh (window trip day) is
      × (length is ≤ length cs)
unfolding items_of
items_of-AreGood db trip_id n day trip shut places taken fresh [] h v =
    ([], refl, record { inside = tt; counted = refl; listed = refl }, omega arith)
items_of-AreGood db trip_id n day trip shut places taken fresh (c ∷ cs) h v =
    elim (Option-cases (free_place places taken c)) [
      | inl held ↦
          let (is, made, good, few) =
            items_of-AreGood db trip_id n day trip shut places taken fresh cs h v.1 in
          (is, rw (items_of, held) made, good, omega (arith, few))
      | inr (p, free) ↦
          let (is, made, good, few) =
            items_of-AreGood db trip_id n day trip shut places taken (fresh + 1) cs h v.1 in
          let listed = free_place-listed db trip_id places taken c h free in
          let fit = v.0 in
          let early : c.start < 1440 =
            omega (arith, fit.a_slot, fit.before_last, window_last trip day) in
          let valid = validate_item-pick p c fresh early (omega (arith, fit.a_slot)) in
          (
            pick_item p c fresh ∷ is,
            rw (items_of, free, valid, made) refl,
            record {
              inside = ((fit.after_first, fit.before_last), good.inside);
              counted = ap (λ bs. fresh ∷ bs) good.counted;
              listed = ground (arith, listed, good.listed);
            },
            omega (arith, few),
          )
    ]

-- Within a waking day a block is one piece.
pieces_short :
    (day start duration : ℕ)
    → start + duration ≤ 1380
    → pieces day start duration ≡ record { day = day; at = start; until = start + duration } ∷ []
unfolding pieces pieces_from
pieces_short day start duration h =
    let fuel : (start + duration) / 1440 + 1 ≡ suc zero = omega arith in
    rw (pieces, fuel) (ground arith)

in_window-inside :
    (trip : Trip) (day : ℕ) (i : ItemIn)
    → IsInside (window trip day) i
    → in_window trip (record { day = day; at = i.start_min; until = i.start_min + i.duration_min })
      ≡ true
unfolding window available_window
in_window-inside trip day i h = ground (arith, h)

check_item-inside :
    (trip : Trip) (day : ℕ) (i : ItemIn)
    → day < day_count trip
    → IsInside (window trip day) i
    → check_item trip day i ≡ ok tt
unfolding check_item
check_item-inside trip day i h inside =
    let one =
      pieces_short day i.start_min i.duration_min (omega (arith, inside, window_last trip day)) in
    let fits = in_window-inside trip day i inside in rw (check_item, one, fits) (ground (arith, h))

pub check_items-inside :
    (trip : Trip) (day : ℕ) (is : List ItemIn)
    → day < day_count trip
    → All (IsInside (window trip day)) is
    → check_items trip day is ≡ ok tt
unfolding check_items
check_items-inside trip day [] h inside = refl
check_items-inside trip day (i ∷ is) h inside =
    rw (check_items, check_item-inside trip day i h inside.0)
      (check_items-inside trip day is h inside.1)
