-- ===== src/Ping.antt =====
-- src/lib.rs: the ping protocol over QUIC streams. Quinn's streams are answers and functions that
-- the definitions take.
pub mod Payload
pub mod Streams
pub mod Echo
pub mod Server
pub mod Tests
