-- ===== src/Context.antt =====
-- `spec_context.py`: the store behind `.spec-context.json`, with the parts of the feature folder
-- that its readers and writers look at.
mod State
mod Name
mod Store
pub mod Required
pub mod Written
pub mod Opening
unfoldable pub use State.*
unfoldable pub use Name.*
unfoldable pub use Store.*
