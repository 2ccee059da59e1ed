-- ===== src/Proxy.antt =====
-- internal/server/proxy: the sessions that are let in, the leases and rejections, and the idle sessions.
pub mod IdleSweeper
pub mod Expired
pub mod Admission
pub mod Counted
pub mod Leases
pub mod Usable
pub mod Rejections
