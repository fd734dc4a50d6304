-- ===== src/Drafting/Left.antt =====
-- Which of the stored blocks a replacement leaves.
use flight_pricing.Base.{
  ℕ, zero, suc, ◌+◌, ◌/◌, ◌<◌, ◌≡◌, refl, ap, subst, true, false, not, ◌&&◌, List, [], ◌∷◌, ◌++◌,
  ◌==◌, All, all, filter, member, member-append, arith, ==_iff, inl, inr, Bool-cases, map,
}
use flight_pricing.Models.Itinerary.{ItineraryItem}
use flight_pricing.Planning.Calendar.{pieces, pieces_from}
use flight_pricing.Planning.Reading.{days_of}
use flight_pricing.Planning.Itinerary.{DayIn, day_indices, block_ids, survives}
use flight_pricing.Drafting.Task.{range_from}

below-range_from : (d a n : ℕ) → d < a → member d (range_from a n) ≡ false
below-range_from d a zero h = refl
below-range_from d a (suc n) h = ground (arith, h, below-range_from d (a + 1) n)

-- A block's own day is one that it reaches.
member-pieces :
    (day start duration : ℕ) → member day (map (λ p. p.day) (pieces day start duration)) ≡ true
unfolding pieces pieces_from
member-pieces day start duration =
    let more : (start + duration) / 1440 + 1 ≡ suc ((start + duration) / 1440) = omega arith in
    rw (pieces, more) (ground arith)

-- The days that the trip's blocks in a table reach.
abbrev pub reached : ℕ → List ItineraryItem → List ℕ
reached trip_id rs = days_of (filter (λ r. r.trip_id == trip_id) rs)

member-reached :
    (d trip_id : ℕ) (r : ItineraryItem) (rs : List ItineraryItem)
    → member d (reached trip_id (r ∷ rs)) ≡ false
    → (member d (reached trip_id rs) ≡ false) × (r.trip_id == trip_id && r.day_index == d ≡ false)
member-reached d trip_id r rs h = elim (Bool-cases (r.trip_id == trip_id)) [
  | inl mine ↦
      let own = map (λ p. p.day) (pieces r.day_index r.start_min r.duration_min) in
      let split : member d (own ++ reached trip_id rs) ≡ false = rw mine at h in
      let both = member-append d own (reached trip_id rs) in
      let off : member d own ≡ false = ground (arith, split, both) in
      let later : member d (reached trip_id rs) ≡ false = ground (arith, split, both) in
      elim (Bool-cases (r.day_index == d)) [
        | inr away ↦ (later, ground (arith, away))
        | inl same ↦
            let there =
              subst (λ e. member e own ≡ true) ((==_iff r.day_index d).0 same)
                (member-pieces r.day_index r.start_min r.duration_min) in
            absurd (ground (arith, there, off))
      ]
  | inr other ↦ ground (arith, h, other)
]

off-reached :
    (trip_id : ℕ) (r : ItineraryItem) (rs : List ItineraryItem) (xs : List ℕ)
    → all (λ d. not (member d (reached trip_id (r ∷ rs)))) xs ≡ true
    → (all (λ d. not (member d (reached trip_id rs))) xs ≡ true)
      × (r.trip_id == trip_id && member r.day_index xs ≡ false)
off-reached trip_id r rs [] h = (refl, ground arith)
off-reached trip_id r rs (x ∷ xs) h =
    let rest = off-reached trip_id r rs xs (ground (arith, h)) in
    let here = member-reached x trip_id r rs (ground (arith, h)) in
    (ground (arith, rest.0, here.0), ground (arith, rest.1, here.1))

-- A block that is not sent again and whose day is not listed stays.
pub survives-all :
    (trip_id fresh total : ℕ) (ds : List DayIn) (rs : List ItineraryItem)
    → All (λ r. r.block_id < fresh) rs
    → block_ids ds ≡ range_from fresh total
    → all (λ d. not (member d (reached trip_id rs))) (day_indices ds) ≡ true
    → filter (survives trip_id ds) rs ≡ rs
survives-all trip_id fresh total ds [] old counted off = refl
survives-all trip_id fresh total ds (r ∷ rs) old counted off =
    let here = off-reached trip_id r rs (day_indices ds) off in
    let rest = survives-all trip_id fresh total ds rs old.1 counted here.0 in
    let unsent_block : member r.block_id (block_ids ds) ≡ false =
      rw counted (below-range_from r.block_id fresh total old.0) in
    let stays : survives trip_id ds r ≡ true = ground (arith, here.1, unsent_block) in
    rw stays (ap (λ qs. r ∷ qs) rest)
