-- ===== src/Ebpf.antt =====
-- aya-test-ebpf/src/main.rs: the kernel probes. `Kernel` is what they call of the kernel, `Word` the
-- words that they pack, `Probe` the handlers and `Sample` the stack sampler; the other children prove.
pub mod Kernel
pub mod Word
pub mod Probe
pub mod Sample
pub mod Step
pub mod Access
pub mod Alone
pub mod Overlap
pub mod Isolation
pub mod Request
pub mod Written
pub mod Report
pub mod Records
pub mod Wakeup
pub mod Served
pub mod Phase
pub mod Phases
pub mod Replies
pub mod Shared
pub mod Samples
