-- ===== src/Routing.antt =====
-- internal/routing/pipeline.go: the choice of a node for a statement, with the events and the counts.
pub mod Filter
pub mod Select
pub mod Turns
pub mod Pipeline
pub mod Request
pub mod Lease
pub mod Counts
pub mod Ledger
pub mod Runs
pub mod Eligible
pub mod Backed
pub mod Exclusive
pub mod Observe
pub mod Histogram
pub mod Cumulative
