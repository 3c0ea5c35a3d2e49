-- ===== src/Attendances.antt =====
-- Attendance records: apps/api/src/modules/attendances.
pub mod Types
pub mod ClockIn
pub mod Service
pub mod Single
pub mod Judged
pub mod Tests
pub mod Admin
pub mod Frozen
pub mod Added
pub mod Kept
pub mod Protected
