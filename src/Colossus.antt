-- ===== src/Colossus.antt =====
-- cpp_17/network: the Colossus protocol.
pub mod Kind
pub mod Message
pub mod Overlay
pub mod Messages
