-- ===== src/Planning/Calendar/Covered.antt =====
-- The pieces of a block are the block: they cover its minutes and no others.
use flight_pricing.Base.{
  ℕ, zero, suc, ◌+◌, ◌-◌, ◌*◌, ◌/◌, ◌≤◌, ◌<◌, ◌≡◌, Bool, ◌&&◌, List, any, All, ltb, leb, arith,
}
use flight_pricing.Planning.Calendar.{Piece, pieces_from, pieces}

-- A minute, counted from the midnight before the first day, stands in a piece.
abbrev pub in_piece : ℕ → Piece → Bool
in_piece m p = leb (p.day * 1440 + p.at) m && ltb m (p.day * 1440 + p.until)

abbrev pub covered : ℕ → List Piece → Bool
covered m = any (in_piece m)

covered-pieces_from :
    (fuel day at end m : ℕ)
    → end / 1440 < fuel
    → at ≤ 1440
    → at ≤ end
    → covered m (pieces_from fuel day at end)
      ≡ (leb (day * 1440 + at) m && ltb m (day * 1440 + end))
unfolding pieces_from
covered-pieces_from zero day at end m f a b = absurd (omega arith)
covered-pieces_from (suc fuel) day at end m f a b =
    ground (arith, covered-pieces_from fuel (day + 1) 0 (end - 1440) m)

-- A minute lies in some piece of a block that starts within its day exactly when it lies between the
-- block's start and its end.
pub covered-pieces :
    (day start duration m : ℕ)
    → start ≤ 1440
    → covered m (pieces day start duration)
      ≡ (leb (day * 1440 + start) m && ltb m (day * 1440 + (start + duration)))
unfolding pieces
covered-pieces day start duration m h =
    covered-pieces_from ((start + duration) / 1440 + 1) day start (start + duration) m (omega arith)
      h (omega arith)

-- A piece stands within one day.
abbrev pub IsDayPart : Piece → Type 0
IsDayPart p = (p.at ≤ p.until) × (p.until ≤ 1440)

pieces_from-IsDayPart :
    (fuel day at end : ℕ) → at ≤ 1440 → at ≤ end → All IsDayPart (pieces_from fuel day at end)
unfolding pieces_from
pieces_from-IsDayPart zero day at end h k = tt
pieces_from-IsDayPart (suc fuel) day at end h k =
    ground (arith, pieces_from-IsDayPart fuel (day + 1) 0 (end - 1440))

-- Every piece of a block that starts within its day lies within one day, and ends no earlier than it
-- starts.
pub pieces-IsDayPart :
    (day start duration : ℕ) → start ≤ 1440 → All IsDayPart (pieces day start duration)
unfolding pieces
pieces-IsDayPart day start duration h =
    pieces_from-IsDayPart ((start + duration) / 1440 + 1) day start (start + duration) h
      (omega arith)
