-- ===== src/Tests.antt =====
-- Runs of the definitions on small inputs, and the theorems at inputs that meet their hypotheses.
pub mod Sample
pub mod Parser
mod Adapter
mod Dashboard
mod Inspector
mod Benchmark
mod Controller
mod Process
mod Sweep
mod Console
mod Disk
mod Telemetry
mod Filter
mod Rows
mod Select
mod Order
mod Server
pub mod Memory
