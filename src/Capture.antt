-- ===== src/Capture.antt =====
-- `capture.py`: the additive writers, which merge onto the context.
mod Merge
mod Writers
pub mod Lifecycle
pub mod Commands
pub mod Names
unfoldable pub use Merge.*
unfoldable pub use Writers.*
