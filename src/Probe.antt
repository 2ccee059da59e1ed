-- ===== src/Probe.antt =====
-- internal/probe/probe.go: the loop that asks one node for its state and reports to the topology.
pub mod Types
pub mod Round
pub mod Failures
