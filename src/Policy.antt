-- ===== src/Policy.antt =====
-- internal/policy: per-node state machines that hold a node out of routing.
pub mod Types
pub mod Evaluators
pub mod Machine
pub mod Engine
pub mod Hysteresis
pub mod Total
pub mod Frame
pub mod Reports
