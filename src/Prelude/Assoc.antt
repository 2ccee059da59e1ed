-- ===== src/Prelude/Assoc.antt =====
-- Go's `map[string]V`.
mod Defs
mod Entries
pub use Defs.{Assoc, get-put, get-remove}
unfoldable pub use Defs.{get, put, remove}
pub use Entries.*
