-- ===== src/Messaging.antt =====
-- internal/server/messaging: which queries need a connection of their own.
pub mod SessionState
pub mod Batches
pub mod Fuel
