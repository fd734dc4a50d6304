-- ===== src/Ingest.antt =====
-- tp_backend/tp_ingestions and tp_backend/libs/ingest: the queue of tasks that reads a city's sources,
-- and the worker that drains it. A transaction is one step, so no row is locked when another begins.
pub mod Queue
pub mod Worker
pub mod Enqueue
pub mod Leases
pub mod Claims
pub mod Settling
pub mod Budget
pub mod Policy
pub mod Throttle
pub mod Gate
mod Tests
