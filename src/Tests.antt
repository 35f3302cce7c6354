-- ===== src/Tests.antt =====
-- The theorems at concrete inputs.
pub mod Replicas
pub mod Builds
pub mod Packets
pub mod Reports
pub mod Arena
pub mod Times
pub mod Checker
pub mod Recorder
pub mod Files
pub mod Queues
pub mod Nets
pub mod Machines
pub mod Timelines
pub mod Traces
pub mod Pictures
pub mod Logs
