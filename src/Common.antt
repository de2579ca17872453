-- ===== src/Common.antt =====
-- aya-test-common/src/lib.rs: the types that the kernel probes and the collector share.
pub mod Event
pub mod Layout
pub mod StackLayout
pub mod Command
