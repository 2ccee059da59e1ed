-- ===== src/Topology.antt =====
-- internal/topology: the cluster as the probes have observed it.
pub mod Types
pub mod State
pub mod View
pub mod Sink
pub mod Identity
pub mod Exclusion
pub mod Shutout
pub mod Agreement
pub mod Primary
