-- ===== src/Requests.antt =====
-- HR requests: apps/api/src/modules/requests.
pub mod Types
pub mod LeaveEffects
pub mod ShiftEffects
pub mod Effects
pub mod Rounds
pub mod Approval
pub mod Frame
pub mod Passed
pub mod Distinct
pub mod Complete
pub mod Line
pub mod Service
pub mod Rules
pub mod LeaveSteps
pub mod Created
pub mod Withdrawn
pub mod Charge
pub mod Settled
pub mod Colleague
pub mod RequestSteps
pub mod Bulk
pub mod ShiftTimes
pub mod Tests
pub mod Missing
