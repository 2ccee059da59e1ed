-- ===== src/Session.antt =====
-- internal/server/session/session.go: a session and its connection, and the compat port.
pub mod Boundary
pub mod Window
pub mod Compat
pub mod Loop
pub mod Leaves
pub mod Connection
pub mod Balance
pub mod ReadPort
pub mod Failed
pub mod Replica
pub mod Modes
