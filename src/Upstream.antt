-- ===== src/Upstream.antt =====
-- internal/pool/upstream_client: how a connection is reset before another session takes it.
pub mod Reset
pub mod Reading
pub mod Clean
