-- ===== src/Logger.antt =====
-- internal/logger: the channel of log lines and the exporter of decisions.
pub mod Channel
pub mod Newest
pub mod Exporter
pub mod Found
pub mod Exported
