-- ===== src/Planning.antt =====
-- tp_backend/tp_api/route_planning: a trip's days, the blocks that the user pins to them, and the
-- places that it lists.
pub mod Calendar
pub mod Itinerary
pub mod Shortlist
pub mod Ranking
pub mod Ranked
pub mod Reading
mod Tests
