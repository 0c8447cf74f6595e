-- ===== src/Colossus/Messages.antt =====
-- cpp_17/network/colossus_messages.h: the Colossus messages that the SDK knows.
pub mod Configuration
pub mod FftData
pub mod NavigationData
pub mod NavigationConfig
pub mod Views
pub mod Accessors
