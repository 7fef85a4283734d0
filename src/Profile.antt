-- ===== src/Profile.antt =====
-- Profiles and their screens: synergy/common/ProfileConfig.cpp, ProfileConfig.h, Profile.h, Screen.h.
pub mod Config
pub mod Online
pub mod Apply
mod Examples
