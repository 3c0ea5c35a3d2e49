-- ===== src/Leaves.antt =====
-- The leaves module of the server: apps/api/src/modules/leaves.
pub mod Types
pub mod Accrual
pub mod Balances
pub mod Idempotent
pub mod Months
pub mod Groups
pub mod Service
pub mod Covered
pub mod Tests
