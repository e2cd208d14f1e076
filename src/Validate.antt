-- ===== src/Validate.antt =====
-- `living_validate.py`: the shape check of living specs.
mod Headings
unfoldable pub use Headings.*
pub mod Slicing
mod Patterns
unfoldable pub use Patterns.*
mod Shape
unfoldable pub use Shape.*
mod Blocks
mod Near
unfoldable pub use Blocks.*
unfoldable pub use Near.*
mod FeatureDeltas
unfoldable pub use FeatureDeltas.*
pub mod BlockText
pub mod Errors
pub mod Duplicates
