-- ===== src/Extensions.antt =====
-- backend/src/platform: extensions of a school, from the request to the removal.
pub mod Types
pub mod Ranges
pub mod Controls
pub mod Dependencies
pub mod Themes
pub mod Migrations
pub mod Requests
pub mod Lifecycle
pub mod Upgrade
pub mod Jobs
pub mod Updates
pub mod Records
