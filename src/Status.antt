-- ===== src/Status.antt =====
-- The status of this computer's screen, from the output of the core process to the cloud.
pub mod Report
pub mod Sequence
mod Examples
