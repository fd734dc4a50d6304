-- ===== src/Routing.antt =====
-- tp_backend/libs/routing: the validation of one day, which the user has ordered.
pub mod Hours
pub mod DayPlan
pub mod Warned
mod Tests
