-- ===== src/Text.antt =====
-- The text operations of Python that the scripts use: character classes, `str.splitlines`,
-- `str.strip`, `str.rstrip`, `str.startswith`, `"".join`, `os.path` and `str` of a number.
mod Chars
mod Lines
mod Paths
pub mod Prefixes
pub mod Numerals
unfoldable pub use Chars.*
unfoldable pub use Lines.*
unfoldable pub use Paths.*
