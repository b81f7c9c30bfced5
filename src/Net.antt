-- ===== src/Net.antt =====
-- The client of source/net.
pub mod Request
pub mod Task
pub mod Client
pub mod Sync
pub mod Metrics
