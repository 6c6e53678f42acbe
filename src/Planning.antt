-- ===== src/Planning.antt =====
-- pkgs/media-repair/internal/planning and internal/planningstate: planning a case until it is decided.
pub mod Stored
pub mod Results
pub mod Cases
pub mod Runner
pub mod Backoff
pub mod Decided
mod Tests
