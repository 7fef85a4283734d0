-- ===== src/Framing.antt =====
-- The frames of protocol 2: synergy/service/router/MessageReader.hpp, MessageWriter.hpp and
-- utils/make_variant_of_nth.hpp.
pub mod Frames
pub mod Arrival
mod Examples
