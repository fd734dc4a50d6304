-- ===== src/Drafting.antt =====
-- tp_backend/tp_ingestions/plan/draft.py: an itinerary for a trip's empty days, which a model proposes
-- and the day check judges.
pub mod Reply
pub mod Judged
pub mod Rounds
pub mod Task
pub mod Picked
pub mod Kept
pub mod Reached
pub mod Proposed
pub mod Items
pub mod Sent
pub mod Left
pub mod Written
mod Tests
