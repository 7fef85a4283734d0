-- ===== src/ScreenManager.antt =====
-- The manager of the screens in the configuration tool.
pub mod State
pub mod Answers
pub mod Removal
pub mod Take
pub mod Serve
mod Examples
