-- ===== src/Core.antt =====
-- The core process that the service runs: synergy/service/CoreProcess.cpp, CoreProcessImpl.cpp and
-- CoreManager.cpp.
pub mod Process
pub mod Manager
pub mod Alive
pub mod History
pub mod Rules
pub mod Lives
pub mod Kept
pub mod Owners
pub mod Switching
pub mod Serving
mod Examples
