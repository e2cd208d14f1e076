-- ===== src/Tasks.antt =====
-- `task_sync.py`: the task markers of `tasks.md`, its checkboxes, and the journal of finishes.
mod Marks
mod Boxes
mod Fold
mod Journal
mod Sync
pub mod Growth
pub mod SyncGrowth
pub mod Points
pub mod Boxing
pub mod Folding
pub mod Closing
pub mod Syncing
pub mod SyncPoints
unfoldable pub use Marks.*
unfoldable pub use Boxes.*
unfoldable pub use Fold.*
unfoldable pub use Journal.*
unfoldable pub use Sync.*
