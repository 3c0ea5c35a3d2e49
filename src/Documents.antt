-- ===== src/Documents.antt =====
-- Electronic approval: apps/api/src/modules/documents.
pub mod Constants
pub mod Types
pub mod Store
pub mod Helpers
pub mod Support
pub mod Numbering
pub mod Steps
pub mod Drafts
pub mod Progress
pub mod Actions
pub mod Flow
pub mod Soundness
mod Tests
