-- ===== src/Auth.antt =====
-- tp_backend/libs/auth.py and tp_backend/tp_api/auth_routes.py: signing in with Google, and the session
-- that a browser then presents.
pub mod Google
pub mod Session
pub mod Accepted
pub mod Present
mod Tests
