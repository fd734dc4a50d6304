-- ===== src/Sharing.antt =====
-- tp_backend/tp_api/sharing: who may see a trip, and tp_backend/tp_api/deps.py: the gates that every
-- request passes. Access to a trip is a row of `user_trips` and nothing else.
pub mod Members
pub mod Roles
mod Tests
