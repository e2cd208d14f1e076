-- ===== src/Fold.antt =====
-- `fold_living_spec`: which living specs the deltas of a feature spec go to, and what is written.
mod Targets
mod Writing
unfoldable pub use Targets.*
unfoldable pub use Writing.*
pub mod Guards
pub mod Living
