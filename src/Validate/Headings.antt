-- ===== src/Validate/Headings.antt =====
-- `_requirement_headings` of `living_validate.py`: the headings that the check of deltas compares.
use saga_forge.Base.{ℕ, ◌+◌, Bool, false, List, [], ◌∷◌, String, Option, none, some}
use saga_forge.Text.{splitlines}
use saga_forge.Deltas.{is_fence, toggle, fenced}
use saga_forge.Resolver.{slice_heading, outside}

pub record Heading : Type 0 where
  pub heading : String
  pub line : ℕ

abbrev pub heading_onto : Option String → ℕ → List Heading → List Heading
heading_onto none line hs = hs
heading_onto (some heading) line hs = record { heading = heading; line = line } ∷ hs

unfoldable pub headings_from : Bool → ℕ → List String → List Heading
unfolding is_fence slice_heading
headings_from inside i [] = []
headings_from inside i (line ∷ ls) =
    heading_onto (outside (fenced inside line) (slice_heading line)) (i + 1)
      (headings_from (toggle inside line) (i + 1) ls)

-- `_requirement_headings`
unfoldable pub requirement_headings : String → List Heading
unfolding headings_from
requirement_headings text = headings_from false 0 (splitlines text)
