-- ===== src/Blaster.antt =====
-- src/bin/blaster.rs: the load generator's packet template, its pseudorandom numbers, the rates of
-- its threads, and the loop of one of them.
pub mod Rng
pub mod Template
pub mod Blast
pub mod Rates
pub mod Workers
pub mod Startup
pub mod Report
pub mod Main
pub mod Pace
pub mod Tests
