-- ===== src/Deltas.antt =====
-- `spec_deltas.py` and `living_spec_fold.py`: the requirement deltas of a feature spec, and their
-- fold into a living spec.
mod Grammar
mod Parse
mod Sections
mod MarkerLines
mod Titles
mod Renames
mod Apply
pub mod Fences
pub mod Chains
pub mod Spans
pub mod Keeping
pub mod Routing
pub mod Resolving
unfoldable pub use Grammar.*
unfoldable pub use Parse.*
unfoldable pub use Sections.*
unfoldable pub use MarkerLines.*
unfoldable pub use Titles.*
unfoldable pub use Renames.*
unfoldable pub use Apply.*
unfoldable pub use Fences.{fences_are_balanced}
