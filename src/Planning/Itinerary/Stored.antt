-- ===== src/Planning/Itinerary/Stored.antt =====
-- A replaced itinerary has each block once.
use flight_pricing.Base.{
  ℕ, ◌+◌, ◌≡◌, refl, ap, ◌∙◌, subst, true, false, not, ◌&&◌, List, [], ◌∷◌, ◌++◌, map, ◌==◌,
  if◌then◌else◌, member, member-append, distinct, all, filter, length, arith, inl, inr, Bool-cases,
}
use flight_pricing.Models.{Db}
use flight_pricing.Models.Itinerary.{ItineraryItem}
use flight_pricing.Planning.Itinerary.{
  ItemIn, DayIn, blocks_of, block_ids, day_rows, new_rows, survives, replaced,
}

distinct-append :
    (xs ys : List ℕ)
    → distinct (xs ++ ys) ≡ (distinct xs && distinct ys && all (λ x. not (member x ys)) xs)
distinct-append [] ys = ground arith
distinct-append (x ∷ xs) ys = ground (arith, distinct-append xs ys, member-append x xs ys)

-- The block ids of one trip's rows.
abbrev pub trip_blocks : ℕ → List ItineraryItem → List ℕ
trip_blocks t rs = map (λ r. r.block_id) (filter (λ r. r.trip_id == t) rs)

trip_blocks-append :
    (t : ℕ) (rs qs : List ItineraryItem)
    → trip_blocks t (rs ++ qs) ≡ trip_blocks t rs ++ trip_blocks t qs
trip_blocks-append t [] qs = refl
trip_blocks-append t (r ∷ rs) qs = ground (arith, trip_blocks-append t rs qs)

trip_blocks-day_rows :
    (t u day id : ℕ) (is : List ItemIn)
    → trip_blocks t (day_rows u day is id) ≡ (if u == t then blocks_of is else [])
trip_blocks-day_rows t u day id [] = ground arith
trip_blocks-day_rows t u day id (i ∷ is) = ground (arith, trip_blocks-day_rows t u day (id + 1) is)

trip_blocks-new_rows :
    (t u id : ℕ) (ds : List DayIn)
    → trip_blocks t (new_rows u ds id) ≡ (if u == t then block_ids ds else [])
trip_blocks-new_rows t u id [] = ground arith
trip_blocks-new_rows t u id (d ∷ ds) =
    trip_blocks-append t (day_rows u d.day_index d.items id) (new_rows u ds (id + length d.items))
    ∙ ground (
      arith,
      trip_blocks-day_rows t u d.day_index id d.items,
      trip_blocks-new_rows t u (id + length d.items) ds,
    )

-- The surviving blocks of any trip are among its blocks, and none of the trip at hand was sent.
member-survivors :
    (t u b : ℕ) (ds : List DayIn) (rs : List ItineraryItem)
    → member b (trip_blocks t rs) ≡ false
    → member b (trip_blocks t (filter (survives u ds) rs)) ≡ false
member-survivors t u b ds [] h = refl
member-survivors t u b ds (r ∷ rs) h = ground (arith, member-survivors t u b ds rs)

distinct-survivors :
    (t u : ℕ) (ds : List DayIn) (rs : List ItineraryItem)
    → distinct (trip_blocks t rs) ≡ true
    → distinct (trip_blocks t (filter (survives u ds) rs)) ≡ true
distinct-survivors t u ds [] h = refl
distinct-survivors t u ds (r ∷ rs) h =
    ground (arith, distinct-survivors t u ds rs, member-survivors t u r.block_id ds rs)

survivors-unsent :
    (u : ℕ) (ds : List DayIn) (rs : List ItineraryItem)
    → all (λ b. not (member b (block_ids ds))) (trip_blocks u (filter (survives u ds) rs)) ≡ true
survivors-unsent u ds [] = refl
survivors-unsent u ds (r ∷ rs) = ground (arith, survivors-unsent u ds rs)

all-not-nil : (xs : List ℕ) → all (λ x. not (member x [])) xs ≡ true
all-not-nil [] = refl
all-not-nil (x ∷ xs) = all-not-nil xs

-- No trip has a block twice, `uq_itinerary_trip_block`.
abbrev pub IsKeyed : Db → Type 0
IsKeyed db = (t : ℕ) → distinct (trip_blocks t db.items) ≡ true

pub replaced-IsKeyed :
    (db : Db) (u : ℕ) (ds : List DayIn) (id : ℕ)
    → distinct (block_ids ds) ≡ true
    → IsKeyed db
    → IsKeyed (replaced db u ds id)
replaced-IsKeyed db u ds id single keyed t =
    let kept = filter (survives u ds) db.items in
    let news = new_rows u ds id in
    ap distinct (trip_blocks-append t kept news)
    ∙ distinct-append (trip_blocks t kept) (trip_blocks t news)
    ∙ elim (Bool-cases (u == t)) [
      | inl here ↦
          let same : u ≡ t = ground arith in
          let sent : trip_blocks t news ≡ block_ids ds = trip_blocks-new_rows t u id ds ∙ rw here in
          let unsent =
            subst (λ k. all (λ b. not (member b (block_ids ds))) (trip_blocks k kept) ≡ true) same
              (survivors-unsent u ds db.items) in
          rw sent (ground (arith, distinct-survivors t u ds db.items (keyed t), unsent))
      | inr other ↦
          let none_sent : trip_blocks t news ≡ [] = trip_blocks-new_rows t u id ds ∙ rw other in
          rw none_sent (
            ground (
              arith,
              distinct-survivors t u ds db.items (keyed t),
              all-not-nil (trip_blocks t kept),
            ))
    ]
