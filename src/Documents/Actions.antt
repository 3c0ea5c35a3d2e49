-- ===== src/Documents/Actions.antt =====
-- approval-actions.service.ts: the approval actions. An action reads and checks first; what it
-- writes is one transaction, `commit_…`, a function of the store that the transaction meets. An
-- error leaves the store as it is, since no check stands behind a write.
pub mod Approve
pub mod Reject
pub mod Return
pub mod Receive
