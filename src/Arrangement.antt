-- ===== src/Arrangement.antt =====
-- The screens of the configuration tool: their list, and their arrangement in the view.
pub mod Screens
pub mod Box
pub mod Snapping
pub mod Layout
pub mod Visible
pub mod History
pub mod Bounding
pub mod Centre
pub mod Collisions
pub mod Placing
pub mod Lookup
pub mod Neighbours
pub mod Overlap
mod Examples
