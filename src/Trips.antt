-- ===== src/Trips.antt =====
-- tp_backend/tp_api/main.py: trips, from their creation to their deletion, with the places and the runs
-- that they ask for.
pub mod Create
pub mod Change
pub mod Resolved
pub mod Refused
pub mod Created
pub mod Queued
pub mod Claimed
mod Tests
