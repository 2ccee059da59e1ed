-- ===== src/Config.antt =====
-- The package config: the settings and their validation.
pub mod Types
pub mod Problems
pub mod ServerChecks
pub mod NodeChecks
pub mod Validate
pub mod Seen
pub mod NodeFacts
pub mod ListFacts
pub mod Valid
