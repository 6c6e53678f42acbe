-- ===== src/Casestore.antt =====
-- pkgs/media-repair/internal/casestore: the durable records of manual imports and of joins.
pub mod CaseId
pub mod Execution
pub mod Validation
pub mod Store
pub mod Join
pub mod Terminal
pub mod Table
pub mod Confirming
mod Tests
