-- ===== src/Admin.antt =====
-- internal/admin: who may call the admin API, and what it shows.
pub mod Redact
pub mod Redacted
pub mod Access
pub mod Granted
pub mod Views
pub mod Pools
pub mod Collect
pub mod Labels
pub mod Cluster
pub mod Stream
