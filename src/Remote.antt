-- ===== src/Remote.antt =====
-- Stores that are reached over a connection (crates/clayers-repo/src/store/remote).
pub mod Protocol
pub mod Server
pub mod Client
