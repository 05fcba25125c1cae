-- ===== src/Tests.antt =====
-- Runs of the model on small queues.
pub mod Fixtures
mod Handles
mod Configs
mod Brokers
mod Waits
mod Sleepers
mod Batches
mod Demos
mod Usages
mod Latencies
mod Throughputs
mod Spins
mod Systems
mod Interleavings
