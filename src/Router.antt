-- ===== src/Router.antt =====
-- The mesh router of the service: synergy/service/router/Router.hpp and Router.cpp.
pub mod State
pub mod Order
pub mod Rows
pub mod Best
pub mod Kept
pub mod Valid
pub mod Install
pub mod Withdraw
pub mod Relay
pub mod Handler
pub mod Invariant
pub mod Removal
pub mod History
pub mod Signals
pub mod Tracking
pub mod Follow
pub mod Delivery
pub mod Notify
pub mod Hops
mod Examples
