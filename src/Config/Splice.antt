-- ===== src/Config/Splice.antt =====
-- The writer of the registry: `render_registry`, and `splice_registry`, which puts it into an existing
-- file.
use saga_forge.Base.{
  Bool, true, false, not, ◌&&◌, ◌||◌, List, [], ◌∷◌, ◌++◌, String, Option, none, some, elem,
  if◌then◌else◌, str_eq, is_some,
}
use saga_forge.Text.{
  is, is_space, cat, join, strip, skip_spaces, starts, after_prefix, splitlines_keep, lines,
  join_with,
}
use saga_forge.Resolver.{Capability}
use saga_forge.Config.Flow.{yaml_flow_list, split_colon}
use saga_forge.Config.Registry.{Layout, central, colocated, Rules}
use saga_forge.Config.LineRules.{strip_comment, unsupported}

-- `scalar` of `render_capability`
unfoldable pub render_scalar : String → String
unfolding strip_comment unsupported split_colon strip
render_scalar v =
    let probe = cat "k: " v in
    if unsupported probe []
      || not (str_eq (strip_comment probe) probe)
      || not (str_eq v (strip v))
      || is_some (split_colon v)
    then cat "\"" (cat v "\"")
    else v

abbrev is_nil : List String → Bool
is_nil [] = true
is_nil (_ ∷ _) = false

abbrev exclude_line : List String → List String
exclude_line globs = if is_nil globs then [] else cat "    exclude: " (yaml_flow_list globs) ∷ []

abbrev spec_line : String → List String
spec_line s = if str_eq s "" then [] else cat "    spec: " (render_scalar s) ∷ []

-- `render_capability`
unfoldable pub render_capability : Capability → List String
unfolding yaml_flow_list render_scalar
render_capability cap =
    cat "  - name: " (render_scalar cap.name)
    ∷ cat "    match: " (yaml_flow_list cap.match_globs)
    ∷ (exclude_line cap.exclude ++ spec_line cap.spec)

abbrev layout_line : Layout → List String
layout_line central = []
layout_line colocated = "layout: colocated" ∷ []

abbrev exempt_line : Option (List String) → List String
exempt_line none = []
exempt_line (some globs) = cat "exempt: " (yaml_flow_list globs) ∷ []

abbrev capability_lines : List Capability → List String
capability_lines [] = []
capability_lines (c ∷ cs) = render_capability c ++ capability_lines cs

abbrev capabilities_block : List Capability → List String
capabilities_block [] = "capabilities: []" ∷ []
capabilities_block (c ∷ cs) = "capabilities:" ∷ capability_lines (c ∷ cs)

abbrev rule_lines : List String → List String
rule_lines [] = []
rule_lines (r ∷ rs) = cat "    - \"" (cat r "\"") ∷ rule_lines rs

abbrev step_lines : String → List String → List String
step_lines step [] = []
step_lines step (r ∷ rs) = cat "  " (cat step ":") ∷ rule_lines (r ∷ rs)

abbrev rules_block : List String → List String
rules_block [] = []
rules_block (l ∷ ls) = "rules:" ∷ l ∷ ls

abbrev pub registry_lines :
    Bool → List Capability → Option (List String) → Rules → Layout → List String
registry_lines enabled caps exempt rules layout =
    (if enabled then "enabled: true" else "enabled: false")
    ∷ (layout_line layout
        ++ exempt_line exempt
        ++ capabilities_block caps
        ++ rules_block (step_lines "spec" rules.spec ++ step_lines "plan" rules.plan))

-- `render_registry`
unfoldable pub render_registry :
    Bool → List Capability → Option (List String) → Rules → Layout → String
unfolding render_capability
render_registry enabled caps exempt rules layout =
    cat (join_with "\n" (registry_lines enabled caps exempt rules layout)) "\n"

abbrev begins_space : String → Bool
begins_space String.[] = false
begins_space (String.◌∷◌ c _) = is_space c

abbrev begins_hash : String → Bool
begins_hash line = starts (skip_spaces line) "#"

-- `is_top_level_key`
unfoldable pub is_top_level_key : String → Bool
unfolding is_space skip_spaces after_prefix
is_top_level_key line = not (str_eq line "") && not (begins_space line) && not (begins_hash line)

abbrev key_text : Option (String × String) → String → String
key_text none line = line
key_text (some (k, v)) line = k

abbrev registry_keys : List String
registry_keys = "enabled" ∷ "layout" ∷ "exempt" ∷ "capabilities" ∷ "rules" ∷ []

-- A line that opens a block of the registry
unfoldable pub is_owned : String → Bool
unfolding is_top_level_key split_colon strip
is_owned line =
    is_top_level_key line && elem (strip (key_text (split_colon line) line)) registry_keys

-- Spacing between two blocks: a blank line, or a comment in the first column
unfoldable pub is_spacing : String → Bool
unfolding strip is_space skip_spaces after_prefix
is_spacing line = str_eq (strip line) "" || (begins_hash line && not (begins_space line))

-- The lines before the first that is owned, and from it on
abbrev pub front_onto :
    String → Option (List String × List String) → Option (List String × List String)
front_onto l none = none
front_onto l (some (pre, rest)) = some (l ∷ pre, rest)

unfoldable pub first_owned : List String → Option (List String × List String)
unfolding is_owned
first_owned [] = none
first_owned (l ∷ ls) =
    let later = front_onto l (first_owned ls) in if is_owned l then some ([], l ∷ ls) else later

unfoldable pub has_owned : List String → Bool
unfolding is_owned
has_owned [] = false
has_owned (l ∷ ls) = is_owned l || has_owned ls

-- What stands behind the block of a key: `block_end`, with the lines behind the key. Spacing before the
-- next key does not belong to the block.
unfoldable pub only_spacing : List String → Bool
unfolding is_spacing is_top_level_key
only_spacing [] = true
only_spacing (l ∷ ls) = is_top_level_key l || (is_spacing l && only_spacing ls)

unfoldable pub behind_block : List String → List String
unfolding only_spacing
behind_block [] = []
behind_block (l ∷ ls) =
    let later = behind_block ls in if only_spacing (l ∷ ls) then l ∷ ls else later

-- What stands behind the block of the last key that is owned
unfoldable pub behind_owned : List String → List String
unfolding has_owned behind_block is_owned
behind_owned [] = []
behind_owned (l ∷ ls) =
    let later = behind_owned ls in if has_owned ls then later else behind_block ls

abbrev pub spliced : Option (List String × List String) → List String → List String → List String
spliced none ls rendered = ls ++ rendered
spliced (some (pre, rest)) ls rendered = pre ++ rendered ++ behind_owned rest

-- The lines of a file that has owned lines, with those in place of its owned region; else they are put
-- behind it.
unfoldable pub splice_lines : List String → List String → List String
unfolding first_owned behind_owned
splice_lines ls rendered = spliced (first_owned ls) ls rendered

abbrev with_break : String → Bool → String
with_break s true = s
with_break s false = cat s "\n"

ends_line : String → Bool
ends_line String.[] = false
ends_line (String.◌∷◌ c String.[]) = is c 10
ends_line (String.◌∷◌ c (String.◌∷◌ d s)) = ends_line (String.◌∷◌ d s)

-- `splice_registry`
unfoldable pub splice_registry : String → String → String
unfolding splice_lines ends_line strip lines has_owned
splice_registry original rendered =
    if has_owned (splitlines_keep original)
    then join (splice_lines (splitlines_keep original) (rendered ∷ []))
    else if str_eq (strip original) ""
    then rendered
    else cat (with_break original (ends_line original)) rendered
