-- ===== src/Protocol.antt =====
-- lib/protocol: both ends of the protocol.
pub mod Server
pub mod Client
pub mod Tests
pub mod Formatting
pub mod RunAndQuit
