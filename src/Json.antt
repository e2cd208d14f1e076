-- ===== src/Json.antt =====
-- JSON documents as Python holds them: the values that `json.loads` gives and `json.dumps` takes,
-- with the methods of `dict` and the comparisons that the scripts use. A number is a natural
-- number here: the scripts only carry numbers along.
mod Data
mod Methods
pub mod DictLaws
unfoldable pub use Data.*
unfoldable pub use Methods.*
