-- ===== src/Deltas/Grammar.antt =====
-- The patterns of `spec_deltas.py`, on one line or on the body of a block.
use saga_forge.Base.{◌||◌, String, Char, Option, none, some, if◌then◌else◌, is_some, str_eq}
use saga_forge.Text.{
  is, is_space, skip_spaces, strip, after_prefix, after_folded, after_spaces, is_blank, and_then,
}

pub data Verb : Type 0 where
  added modified removed renamed : Verb

abbrev verb_before : Verb → Option String → Option (Verb × String)
verb_before v none = none
verb_before v (some rest) = some (v, rest)

abbrev first_verb : Option (Verb × String) → Option (Verb × String) → Option (Verb × String)
first_verb (some x) o = some x
first_verb none o = o

abbrev verb_at : String → Option (Verb × String)
verb_at s = first_verb (verb_before added (after_folded "added" s)) (
    first_verb (verb_before modified (after_folded "modified" s)) (
      first_verb (verb_before removed (after_folded "removed" s))
        (verb_before renamed (after_folded "renamed" s))))

abbrev verb_if_blank : Verb → Option String → Option Verb
verb_if_blank v none = none
verb_if_blank v (some rest) = if is_blank rest then some v else none

abbrev with_requirements : Option (Verb × String) → Option Verb
with_requirements none = none
with_requirements (some (v, rest)) =
    verb_if_blank v (and_then (after_spaces rest) (after_folded "requirements"))

-- `_DELTA_HEADER_RE.match(line)`, its verb
unfoldable pub delta_header : String → Option Verb
unfolding after_prefix after_spaces after_folded skip_spaces
delta_header line =
    and_then (and_then (after_prefix "##" line) after_spaces) (λ s. with_requirements (verb_at s))

-- `[^\s>]+` at the head of a text, and what follows.
unfoldable pub name_part : String → String × String
unfolding is_space
name_part String.[] = (String.[], String.[])
name_part (String.◌∷◌ c s) =
    let (name, rest) = name_part s in
    if is_space c || is c b'>' then (String.[], String.◌∷◌ c s) else (String.◌∷◌ c name, rest)

-- The name without a `--` at its end.
unfoldable pub before_dashes : String → Option String
before_dashes String.[] = none
before_dashes (String.◌∷◌ c s) =
    if str_eq (String.◌∷◌ c s) "--"
    then some String.[]
    else elim (before_dashes s) [ none ↦ none | some t ↦ some (String.◌∷◌ c t) ]

abbrev pub nonempty : Option String → Option String
nonempty none = none
nonempty (some s) = if str_eq s "" then none else some s

-- `([^\s>]+)\s*-->`: the run of name characters ends before the arrow's `>` only if it takes the
-- two dashes along, which the pattern then gives back.
abbrev named_until : String → String → Option String
named_until name rest =
    if is_some (after_prefix "-->" (skip_spaces rest))
    then nonempty (some name)
    else if is_some (after_prefix ">" rest)
    then nonempty (before_dashes name)
    else none

abbrev marker_name : String → Option String
marker_name s = let (name, rest) = name_part s in named_until name rest

-- `_CAP_MARKER_RE` at the head of a text
abbrev marker_here : String → Option String
marker_here s =
    and_then (after_prefix "<!--" s) (λ t.
      and_then (after_folded "capability:" (skip_spaces t)) (λ u. marker_name (skip_spaces u)))

abbrev or_later : Option String → Option String → Option String
or_later (some x) later = some x
or_later none later = later

-- `_CAP_MARKER_RE.search(body)`, its name
unfoldable pub cap_marker : String → Option String
unfolding name_part before_dashes after_prefix after_folded skip_spaces
cap_marker String.[] = none
cap_marker (String.◌∷◌ c s) = or_later (marker_here (String.◌∷◌ c s)) (cap_marker s)

-- The text of a heading, from what follows `###`: at least one space, then at least one character,
-- which is a space if there is nothing else.
abbrev heading_text : String → Option String
heading_text String.[] = none
heading_text (String.◌∷◌ c String.[]) = none
heading_text (String.◌∷◌ c s) = if is_space c then some (strip s) else none

-- `_REQ_HEADING_RE.match(line)`, its group stripped
unfoldable pub req_heading : String → Option String
unfolding after_prefix strip is_space
req_heading line = and_then (after_prefix "###" line) heading_text

abbrev after_arrow : String → Option String
after_arrow s = or_later (after_prefix "->" s) (after_prefix "→" s)

abbrev onto_left : Char → Option (String × String) → Option (String × String)
onto_left c none = none
onto_left c (some (l, r)) = some (String.◌∷◌ c l, r)

abbrev split_here : Option String → Char → Option (String × String) → Option (String × String)
split_here none c later = onto_left c later
split_here (some rest) c later =
    if str_eq rest "" then onto_left c later else some (String.[], rest)

-- The two sides of the first arrow that has anything behind it.
sides : String → Option (String × String)
unfolding after_prefix
sides String.[] = none
sides (String.◌∷◌ c s) = split_here (after_arrow (String.◌∷◌ c s)) c (sides s)

abbrev strip_sides : Option (String × String) → Option (String × String)
strip_sides none = none
strip_sides (some (l, r)) = some (strip l, strip r)

-- `_RENAME_RE.match(head)`, its groups stripped
unfoldable pub rename_sides : String → Option (String × String)
unfolding sides strip
rename_sides head = strip_sides (sides head)
