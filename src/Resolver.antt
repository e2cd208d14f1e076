-- ===== src/Resolver.antt =====
-- `resolve-spec-paths.py`: which capability a changed file belongs to, and which requirements of its
-- living spec a run reads.
mod Glob
mod Slices
mod Registry
mod Names
mod Discovery
mod Loading
mod Show
pub mod Segments
pub mod Folders
pub mod Naming
pub mod Distinct
pub mod Matching
pub mod Narrowing
pub mod Specificity
unfoldable pub use Glob.*
unfoldable pub use Slices.*
unfoldable pub use Registry.*
unfoldable pub use Names.*
unfoldable pub use Discovery.*
unfoldable pub use Loading.*
unfoldable pub use Show.*
