-- ===== src/Deltas/Sections.antt =====
-- Where a requirement stands in the lines of a living spec: `_fence_flags` and
-- `_living_requirement_span`.
use saga_forge.Base.{
  Bool, false, not, ◌&&◌, ◌||◌, List, [], ◌∷◌, String, Option, none, some, if◌then◌else◌, str_eq,
}
use saga_forge.Text.{skip_spaces, strip, after_prefix, starts}
use saga_forge.Deltas.Grammar.{req_heading}

-- `^\s*(```|~~~)`
unfoldable pub is_fence : String → Bool
unfolding skip_spaces after_prefix
is_fence line = starts (skip_spaces line) "```" || starts (skip_spaces line) "~~~"

-- `inside` behind a line.
abbrev pub toggle : Bool → String → Bool
toggle inside line = if is_fence line then not inside else inside

-- The flag that `_fence_flags` gives a line.
abbrev pub fenced : Bool → String → Bool
fenced inside line = is_fence line || inside

-- `_fence_flags(lines)`
unfoldable pub fence_flags_from : Bool → List String → List Bool
fence_flags_from inside [] = []
fence_flags_from inside (line ∷ ls) = fenced inside line ∷ fence_flags_from (toggle inside line) ls

-- `inside` behind the last of the lines.
unfoldable pub inside_after : Bool → List String → Bool
inside_after inside [] = inside
inside_after inside (line ∷ ls) = inside_after (toggle inside line) ls

-- The lines before a requirement, its own with the heading first, and those behind.
pub record Span : Type 0 where
  pub before : List String
  pub section : List String
  pub after : List String

abbrev heading_is : String → Option String → Bool
heading_is h none = false
heading_is h (some t) = str_eq t h

-- The line is the heading, outside of every fence.
abbrev pub is_hit : Bool → String → String → Bool
is_hit inside h line = not (fenced inside line) && heading_is h (req_heading line)

-- The line ends a requirement: the next heading or section, outside of every fence.
abbrev pub is_end : Bool → String → Bool
is_end inside line = not (fenced inside line) && (starts line "### " || starts line "## ")

abbrev pub onto_body : String → List String × List String → List String × List String
onto_body line (body, rest) = (line ∷ body, rest)

unfoldable pub split_end : Bool → List String → List String × List String
unfolding is_fence after_prefix
split_end inside [] = ([], [])
split_end inside (line ∷ ls) =
    let later = onto_body line (split_end (toggle inside line) ls) in
    if is_end inside line then ([], line ∷ ls) else later

abbrev pub behind_line : String → Option Span → Option Span
behind_line line none = none
behind_line line (some s) = some (record s { before = line ∷ s.before })

abbrev pub hit_span : String → List String × List String → Span
hit_span line (body, rest) = record { before = []; section = line ∷ body; after = rest }

-- `_living_requirement_span`, its indices as the three parts of the lines.
unfoldable pub span_from : Bool → String → List String → Option Span
unfolding is_fence req_heading split_end
span_from inside h [] = none
span_from inside h (line ∷ ls) =
    let later = behind_line line (span_from (toggle inside line) h ls) in
    if is_hit inside h line then some (hit_span line (split_end false ls)) else later

abbrev pub requirement_span : List String → String → Option Span
requirement_span ls heading = span_from false (strip heading) ls
