-- ===== src/Drafting/Picked.antt =====
-- What the kept picks of one day are, whatever the model replied.
use flight_pricing.Base.{
  ℕ, ◌+◌, ◌%◌, ◌≤◌, ◌<◌, ◌≡◌, subst, Bool, false, some, List, [], ◌∷◌, ◌==◌, if◌then◌else◌, member,
  All, arith, inl, inr, Bool-cases, Option-cases, ==_iff,
}
use flight_pricing.Base.Int.{ℤ, pos, negsuc, pos_part}
use flight_pricing.Base.Sums.{sum_by}
use flight_pricing.Drafting.Reply.{
  Field, missing, null, given, Pick, Chosen, slot_min, snap_nat, snap, snapped, has_pair, index_of,
  fitted, floor_of, pick_one, pick_all,
}

-- A pick of a day's: a candidate that is not shut then, on the grid, inside the window.
pub record IsFit (w : ℕ × ℕ) (n day : ℕ) (shut : List (ℕ × ℕ)) (c : Chosen) : Type 0 where
  pub in_range : c.index < n
  pub not_shut : has_pair day c.index shut ≡ false
  pub start_on_grid : c.start % slot_min ≡ 0
  pub duration_on_grid : c.duration % slot_min ≡ 0
  pub a_slot : slot_min ≤ c.duration
  pub after_first : w.0 ≤ c.start
  pub before_last : c.start + c.duration ≤ w.1

-- How often a candidate is picked.
abbrev pub uses : ℕ → List Chosen → ℕ
uses i = sum_by (λ c. if c.index == i then 1 else 0)

snap_nat-on_grid : (m : ℕ) → snap_nat m % slot_min ≡ 0
unfolding snap_nat
snap_nat-on_grid m = ground arith

snap-on_grid : (m : ℤ) → pos_part (snap m) % slot_min ≡ 0
unfolding snap
snap-on_grid (pos m) = snap_nat-on_grid m
snap-on_grid (negsuc m) = ground arith

snapped_lem :
    (low default : ℕ) (f : Field)
    → low % slot_min ≡ 0
    → (low ≤ snapped low default f) × (snapped low default f % slot_min ≡ 0)
unfolding snapped
snapped_lem low default missing h = ground (arith, snap-on_grid (pos default))
snapped_lem low default null h = ground (arith, snap-on_grid (pos 0))
snapped_lem low default (given m) h = ground (arith, snap-on_grid m)

fitted-some :
    (i start dur last : ℕ) {c : Chosen}
    → fitted i start dur last ≡ some c
    → (record { index = i; start = start; duration = dur } ≡ c) × (start + dur ≤ last)
fitted-some i start dur last h = ground (arith, h)

index_of-some :
    (f : Field) (n : ℕ) (seen : List ℕ) (day : ℕ) (shut : List (ℕ × ℕ)) {i : ℕ}
    → index_of f n seen day shut ≡ some i
    → (i < n) × (member i seen ≡ false) × (has_pair day i shut ≡ false)
index_of-some missing n seen day shut h = cc
index_of-some null n seen day shut h = cc
index_of-some (given (negsuc j)) n seen day shut h = cc
index_of-some (given (pos j)) n seen day shut {i} h =
    let same : j ≡ i = ground (arith, h) in
    subst (λ k. (k < n) × (member k seen ≡ false) × (has_pair day k shut ≡ false)) same
      (ground (arith, h))

pick_one-IsFit :
    (w : ℕ × ℕ) (n day : ℕ) (shut : List (ℕ × ℕ)) (seen : List ℕ) (it : Pick) {c : Chosen}
    → pick_one w n day shut seen it ≡ some c
    → IsFit w n day shut c × (member c.index seen ≡ false)
unfolding pick_one
pick_one-IsFit w n day shut seen it {c} h =
    elim (Option-cases (index_of it.index n seen day shut)) [
      | inl none_there ↦ ground (arith, h)
      | inr (i, there) ↦
          let floor = floor_of w.0 in
          let s = snapped floor floor it.start_min in
          let d = snapped slot_min 60 it.duration_min in
          let at = snapped_lem floor floor it.start_min (omega arith) in
          let long = snapped_lem slot_min 60 it.duration_min (omega arith) in
          let good = index_of-some it.index n seen day shut there in
          let made : fitted i s d w.1 ≡ some c = ground (arith, h) in
          let (same, ends) = fitted-some i s d w.1 made in
          subst (λ e. IsFit w n day shut e × (member e.index seen ≡ false)) same
            (
              record {
                in_range = good.0;
                not_shut = good.2;
                start_on_grid = at.1;
                duration_on_grid = long.1;
                a_slot = long.0;
                after_first = omega (arith, at.0);
                before_last = ends;
              },
              good.1,
            )
    ]

abbrev pub one_if : Bool → ℕ
one_if b = if b then 1 else 0

pub pick_all-fits :
    (w : ℕ × ℕ) (n day : ℕ) (shut : List (ℕ × ℕ)) (seen : List ℕ) (its : List Pick)
    → All (IsFit w n day shut) (pick_all w n day shut seen its).0
unfolding pick_all
pick_all-fits w n day shut seen [] = tt
pick_all-fits w n day shut seen (it ∷ its) = elim (Option-cases (pick_one w n day shut seen it)) [
  | inl refused ↦ rw (pick_all, refused) (pick_all-fits w n day shut seen its)
  | inr (c, kept) ↦
      rw (pick_all, kept)
        (
          (pick_one-IsFit w n day shut seen it kept).0,
          pick_all-fits w n day shut (c.index ∷ seen) its,
        )
]

-- A pick's index is new, and seen from then on.
pub pick_all-uses :
    (w : ℕ × ℕ) (n day : ℕ) (shut : List (ℕ × ℕ)) (seen : List ℕ) (its : List Pick) (i : ℕ)
    → uses i (pick_all w n day shut seen its).0 + one_if (member i seen)
      ≤ one_if (member i (pick_all w n day shut seen its).1)
unfolding pick_all
pick_all-uses w n day shut seen [] i = omega arith
pick_all-uses w n day shut seen (it ∷ its) i = elim (Option-cases (pick_one w n day shut seen it)) [
  | inl refused ↦ rw (pick_all, refused) (pick_all-uses w n day shut seen its i)
  | inr (c, kept) ↦
      let fresh = (pick_one-IsFit w n day shut seen it kept).1 in
      let rest = pick_all-uses w n day shut (c.index ∷ seen) its i in
      let new : one_if (c.index == i) + one_if (member i seen)
          ≤ one_if (member i (c.index ∷ seen)) =
        elim (Bool-cases (c.index == i)) [
          | inl same ↦
              let unseen = subst (λ k. member k seen ≡ false) ((==_iff c.index i).0 same) fresh in
              ground (arith, unseen)
          | inr other ↦ ground (arith, other)
        ] in
      rw (pick_all, kept) (omega (arith, rest, new))
]
