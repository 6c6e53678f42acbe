-- ===== src/Repair.antt =====
-- pkgs/media-repair/internal/repair: the engine that runs one repair attempt and the scheduler that
-- advances the jobs of one service.
pub mod World
pub mod Engine
pub mod Submissions
pub mod Once
pub mod Scheduler
pub mod Disabled
pub mod Delays
pub mod Removal
pub mod Removing
pub mod Quiet
mod Tests
