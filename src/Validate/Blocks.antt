-- ===== src/Validate/Blocks.antt =====
-- `_delta_blocks` of `living_validate.py`: the blocks that the check of a feature spec sees.
use saga_forge.Base.{ℕ, suc, Bool, true, false, List, [], ◌∷◌, ◌++◌, String, Option, none, some}
use saga_forge.Text.{splitlines}
use saga_forge.Deltas.{Verb, delta_header}
use saga_forge.Resolver.{slice_heading}
use saga_forge.Validate.Headings.{Heading}
use saga_forge.Validate.Patterns.{is_section_line, marker_line_name}
use saga_forge.Validate.Shape.{Row, rows_from}

pub record Block : Type 0 where
  pub verb : Verb
  pub capability : Option String
  pub marker_line : ℕ
  pub start : ℕ
  pub end : ℕ
  pub headings : List Heading

abbrev open_block : Verb → ℕ → ℕ → Block
open_block verb number last = record {
  verb = verb;
  capability = none;
  marker_line = number;
  start = number;
  end = last;
  headings = [];
}

-- The block that is open, ended before the line of the number
abbrev pub closed : Option Block → ℕ → List Block
closed none i = []
closed (some b) i = record b { end = i } ∷ []

-- A line that is not a header of a block, in an open one: the block as the line leaves it
abbrev heading_step : Option String → ℕ → Block → Block
heading_step none number b = b
heading_step (some heading) number b = record b {
  headings = b.headings ++ record { heading = heading; line = number } ∷ [];
}

abbrev marker_step : Option String → Row → Block → Block
marker_step none r b = heading_step (slice_heading r.text) r.number b
marker_step (some name) r b = record b { capability = some name; marker_line = r.number }

-- What is open behind a line, with the blocks that it ends: `last` is `len(lines)`, and `i` the
-- number of the line from zero.
pub record Step : Type 0 where
  pub ended : List Block
  pub opened : Option Block

abbrev in_block : Bool → Row → ℕ → Block → Step
in_block true r i b = record { ended = closed (some b) i; opened = none }
in_block false r i b = record {
  ended = [];
  opened = some (marker_step (marker_line_name r.text) r b);
}

abbrev body_step : Row → ℕ → Option Block → Step
body_step r i none = record { ended = []; opened = none }
body_step r i (some b) = in_block (is_section_line r.text) r i b

abbrev header_step : Option Verb → Row → ℕ → ℕ → Option Block → Step
header_step (some verb) r last i cur = record {
  ended = closed cur i;
  opened = some (open_block verb r.number last);
}
header_step none r last i cur = body_step r i cur

abbrev block_step : Bool → Row → ℕ → ℕ → Option Block → Step
block_step true r last i cur = record { ended = []; opened = cur }
block_step false r last i cur = header_step (delta_header r.text) r last i cur

unfoldable pub blocks_from : ℕ → ℕ → Option Block → List Row → List Block
unfolding delta_header slice_heading is_section_line marker_line_name
blocks_from last i cur [] = elim cur [ none ↦ [] | some b ↦ b ∷ [] ]
blocks_from last i cur (r ∷ rs) =
    let s = block_step r.hidden r last i cur in s.ended ++ blocks_from last (suc i) s.opened rs

abbrev rows_count : List Row → ℕ
rows_count [] = 0
rows_count (r ∷ rs) = suc (rows_count rs)

-- `_delta_blocks`
unfoldable pub delta_blocks : String → List Block
unfolding rows_from blocks_from
delta_blocks text =
    let rows = rows_from false 0 (splitlines text) in blocks_from (rows_count rows) 0 none rows
