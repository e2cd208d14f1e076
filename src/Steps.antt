-- ===== src/Steps.antt =====
-- `write-context.py`: the writers of the lifecycle, `update_context`, `journal_finish`,
-- `journal_advance` and `mark_spec_complete`.
mod Update
mod Finish
pub mod Growth
unfoldable pub use Update.*
unfoldable pub use Finish.*
