-- ===== src/Auth.antt =====
-- src/auth.rs.
pub mod Direction
pub mod Cipher
pub mod Tag
pub mod Verify
pub mod Cid
pub mod Authenticator
pub mod Generator
pub mod StandIn
mod Tests
