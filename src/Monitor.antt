-- ===== src/Monitor.antt =====
-- The service's monitors of screens.
pub mod Reach
pub mod Views
pub mod Follow
mod Examples
