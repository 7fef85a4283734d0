-- ===== src/Links.antt =====
-- The links between the edges of screens that the configuration file of the core has.
pub mod Edges
pub mod Nearest
pub mod Screens
pub mod Listed
mod Examples
