-- ===== src/Servarr.antt =====
-- pkgs/media-repair/internal/servarr: what Radarr and Lidarr commands say, and following an import.
pub mod Command
pub mod Import
pub mod Following
mod Tests
