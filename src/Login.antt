-- ===== src/Login.antt =====
-- The way of a connection to its session: internal/server/downstream_client, internal/auth and the first
-- part of `Run` in internal/server/session/session.go.
pub mod Client
pub mod Authenticator
pub mod Start
pub mod StoredScram
pub mod Secrets
pub mod Started
pub mod Checked
pub mod Admitted
