-- ===== src/Validate/FeatureDeltas.antt =====
-- `check_feature_deltas` of `living_validate.py`: the check of a feature spec before its fold.
use saga_forge.Base.{
  ℕ, zero, suc, ◌-◌, Bool, true, false, not, ◌&&◌, ◌||◌, List, [], ◌∷◌, ◌++◌, Char, String, Option,
  none, some, elem, map, str_eq, if◌then◌else◌,
}
use saga_forge.Text.{splitlines, join_with}
use saga_forge.Deltas.{Verb, added, modified, removed, renamed}
use saga_forge.Validate.Headings.{Heading, requirement_headings}
use saga_forge.Validate.Shape.{error, warning, Finding, finding, check_living_spec, sort_findings}
use saga_forge.Validate.Blocks.{Block, delta_blocks}
use saga_forge.Validate.Near.{has_near, requirement_key}

-- The arguments: the registry's names, the texts of the living specs, and the headings of each
-- capability that are recorded as removed.
pub record Known : Type 0 where
  pub is_word : Char → Bool
  pub names : List String
  pub target : String → Option String
  pub default_capability : Option String
  pub removed_of : String → List String

-- `a or b` of texts that may be `None`
abbrev pub or_default : Option String → Option String → Option String
or_default none other = other
or_default (some s) other = if str_eq s "" then other else some s

-- `cap and cap not in known`
abbrev pub is_unknown : Known → Option String → Bool
is_unknown w none = false
is_unknown w (some cap) = not (str_eq cap "") && not (elem cap w.names)

abbrev pub drop_lines : ℕ → List String → List String
drop_lines zero ls = ls
drop_lines (suc n) [] = []
drop_lines (suc n) (l ∷ ls) = drop_lines n ls

abbrev pub take_lines : ℕ → List String → List String
take_lines zero ls = []
take_lines (suc n) [] = []
take_lines (suc n) (l ∷ ls) = l ∷ take_lines n ls

-- `"\n".join(text.splitlines()[start:end])`
abbrev pub block_text : String → Block → String
block_text text b =
    join_with "\n" (take_lines (b.end - b.start) (drop_lines b.start (splitlines text)))

abbrev pub brings_text : Verb → Bool
brings_text added = true
brings_text modified = true
brings_text removed = false
brings_text renamed = false

abbrev pub present_in : String → List String
present_in target = map (λ h. h.heading) (requirement_headings target)

abbrev pub if_near : Option String → List String → Heading → List Finding
if_near cap present h =
    if has_near h.heading present
    then finding cap warning "added-heading-near-existing" h.line ∷ []
    else []

abbrev pub if_missing : Option String → List String → List String → Heading → List Finding
if_missing cap present recorded h =
    if elem h.heading present || elem (requirement_key h.heading) recorded
    then []
    else finding cap warning "delta-heading-not-found" h.line ∷ []

abbrev pub for_each : (Heading → List Finding) → List Heading → List Finding
for_each f [] = []
for_each f (h ∷ hs) = f h ++ for_each f hs

abbrev pub heading_findings :
    Verb → Option String → List String → List String → List Heading → List Finding
heading_findings added cap present recorded hs = for_each (if_near cap present) hs
heading_findings modified cap present recorded hs = for_each (if_missing cap present recorded) hs
heading_findings removed cap present recorded hs = for_each (if_missing cap present recorded) hs
heading_findings renamed cap present recorded hs = []

abbrev pub at_target : Known → Option String → Option String → Block → List Finding
at_target w cap none b = []
at_target w cap (some target) b =
    heading_findings b.verb cap (present_in target)
      (elim cap [ none ↦ [] | some c ↦ map requirement_key (w.removed_of c) ]) b.headings

abbrev pub target_of : Known → Option String → Option String
target_of w none = none
target_of w (some cap) = if str_eq cap "" then none else w.target cap

abbrev pub shape_findings : Known → String → Option String → Block → List Finding
shape_findings w text cap b =
    if brings_text b.verb then check_living_spec w.is_word (block_text text b) cap b.start else []

-- One pass of the loop
unfoldable pub block_findings : Known → String → Option String → Block → List Finding
unfolding check_living_spec requirement_headings has_near requirement_key
block_findings w text cap b =
    if is_unknown w cap
    then finding cap error "unknown-capability" b.marker_line ∷ []
    else shape_findings w text cap b ++ at_target w cap (target_of w cap) b

abbrev pub blocks_findings : Known → String → List Block → List Finding
blocks_findings w text [] = []
blocks_findings w text (b ∷ bs) =
    block_findings w text (or_default b.capability w.default_capability) b
    ++ blocks_findings w text bs

-- `check_feature_deltas`
unfoldable pub check_feature_deltas : Known → String → List Finding
unfolding delta_blocks block_findings sort_findings
check_feature_deltas w text = sort_findings (blocks_findings w text (delta_blocks text))
