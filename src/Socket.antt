-- ===== src/Socket.antt =====
-- src/socket.rs.
pub mod Counters
pub mod Recv
pub mod Send
mod Tests
