-- ===== src/Jobs.antt =====
-- pkgs/media-repair/internal/jobs: the repair jobs and their database.
pub mod Model
pub mod Queue
pub mod Database
pub mod History
pub mod Store
pub mod Planning
pub mod Consistency
pub mod Exclusion
pub mod Memory
pub mod ReadyPlans
pub mod Remembering
mod Tests
