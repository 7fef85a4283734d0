-- ===== src/UserConfig.antt =====
-- The settings of this computer.
pub mod Table
pub mod RoundTrip
mod Examples
