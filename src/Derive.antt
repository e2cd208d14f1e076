-- ===== src/Derive.antt =====
-- `derive-from-files.py`: the context of a spec that was worked on without the writers, derived from
-- the documents in its folder.
mod Files
pub mod Position
pub mod Status
pub mod Growth
pub mod Steps
unfoldable pub use Files.*
