-- ===== src/Classifier.antt =====
-- internal/classifier: the traffic type of a statement.
pub mod Text
pub mod Scan
pub mod Statement
pub mod Truncate
pub mod Fuel
pub mod LetterCase
pub mod AnyCase
pub mod Comments
pub mod Verdicts
pub mod Digest
