-- ===== src/Codec.antt =====
-- The messages of protocol 1 and their bytes: synergy/service/router/protocol/v1 (MessageCodec.hpp,
-- MessageTypes.hpp, MessageTypes.cpp).
pub mod Bytes
pub mod Fields
pub mod Types
pub mod RoundTrip
pub mod Steps
pub mod Canonical
pub mod Messages
mod Examples
