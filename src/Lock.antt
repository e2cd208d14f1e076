-- ===== src/Lock.antt =====
-- The write lock of `spec_context.py`: `_acquire_lock`, `_reclaim_lock` and `_release_lock`, as the
-- steps of several processes on one lock file.
mod Protocol
pub mod Exclusion
unfoldable pub use Protocol.*
