-- ===== src/Decisions.antt =====
-- internal/decisions: the events and the bus that carries them to the subscribers.
pub mod Events
pub mod Bus
pub mod Ulid
pub mod Decode
pub mod Queues
pub mod Losses
