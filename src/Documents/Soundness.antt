-- ===== src/Documents/Soundness.antt =====
-- The operations of a document and the invariants of its flow, a module for each.
pub mod Finalize
pub mod Approve
pub mod Reject
pub mod PreApprove
pub mod Return
pub mod Cancel
pub mod Aside
pub mod Submit
pub mod Closed
pub mod Submission
