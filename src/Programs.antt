-- ===== src/Programs.antt =====
-- src/bin/server.rs and src/bin/client.rs, and the endpoints of src/lib.rs that they build.
pub mod Setup
pub mod Admission
pub mod Pinging
pub mod Pings
pub mod Summary
pub mod Flood
pub mod Exchange
pub mod ServerMain
pub mod ClientMain
pub mod Lossless
mod Tests
