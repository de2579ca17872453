-- ===== src/Tests.antt =====
-- Small runs of the development on concrete inputs: each theorem at work, with the outside code given
-- by simple functions.
pub mod Instances
mod Probes
mod Overlap
mod Classes
mod Collector
mod Settings
mod Symbols
mod Proc
mod Pipeline
mod Locks
mod Startup
mod Outputs
