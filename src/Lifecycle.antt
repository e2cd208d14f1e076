-- ===== src/Lifecycle.antt =====
-- The lifecycle of a spec as a state machine: the calls of `write-context.py` on one feature
-- folder, in any order, with changes of `tasks.md` and of the spec's file by others in between.
mod Commands
pub mod Traces
pub mod Shipped
pub mod Machine
pub mod TaskMoves
pub mod Refinement
pub mod Progress
pub mod ShipMoves
pub mod StepMoves
pub mod SyncMoves
unfoldable pub use Commands.*
