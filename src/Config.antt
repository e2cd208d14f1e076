-- ===== src/Config.antt =====
-- `companion_config.py`: the reader of the YAML subset, the registry of capabilities, its writer, and
-- the hooks and phases of a recipe.
mod Values
mod Flow
mod Registry
pub mod Hooks
mod LineRules
mod Splice
mod Reader
pub mod Ends
pub mod FlowLists
pub mod RoundTrip
pub mod Pieces
pub mod FlowEnds
pub mod LinesLeft
pub mod MapsLeft
pub mod ReaderEnds
pub mod Phases
pub mod Regions
pub mod Rewriting
unfoldable pub use Values.*
unfoldable pub use Flow.*
unfoldable pub use Registry.*
unfoldable pub use Reader.{
  load_yaml, parse_block, parse_seq, parse_map, split_feeds, indent, wrapped,
}
unfoldable pub use LineRules.{strip_comment, split_key, unsupported, anchor_names, unquote}
unfoldable pub use Splice.{
  render_scalar, render_capability, render_registry, is_top_level_key, is_owned, splice_lines,
  splice_registry, has_owned, behind_owned, only_spacing,
}
