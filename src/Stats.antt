-- ===== src/Stats.antt =====
-- aya-test/src/stats.rs: latency, command and client statistics, and their reports.
pub mod Metrics
pub mod Format
pub mod Latency
pub mod Commands
pub mod Clients
pub mod Sort
pub mod Top
pub mod AnyOrder
pub mod Report
pub mod Deltas
pub mod Ipv4
