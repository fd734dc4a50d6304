-- ===== src/Expenses.antt =====
-- tp_backend/tp_api/expenses: what a trip's members paid, owe and settled.
pub mod Split
pub mod Transfers
pub mod Tally
pub mod Balances
pub mod Schemas
pub mod Service
pub mod Include
pub mod Overview
pub mod Output
pub mod Debts
pub mod Invariant
pub mod Requests
mod Tests
