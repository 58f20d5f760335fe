-- ===== src/Transport.antt =====
-- http/transport: the round trippers of the clients.
pub mod Chain
pub mod Dependency
pub mod Retry
pub mod Dump
mod Tests
