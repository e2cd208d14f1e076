-- ===== src/History.antt =====
-- `spec_context.py`: the append-only lifecycle log of a spec. An entry is a JSON value, since a
-- log read from disk may hold anything; entries that are no objects are passed over, as there.
mod Entries
mod Merge
pub mod Completion
pub mod AppendOnly
pub mod Grows
unfoldable pub use Entries.*
unfoldable pub use Merge.*
