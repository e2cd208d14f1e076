-- ===== src/Deltas/Titles.antt =====
-- `_retitle` and `_add_requirement`: a requirement's heading, and where a new one goes.
use saga_forge.Base.{
  Bool, true, false, not, ◌&&◌, List, [], ◌∷◌, String, Char, Option, none, some, if◌then◌else◌,
  str_eq, is_some,
}
use saga_forge.Text.{
  is_space, cat, skip_spaces, rstrip, strip, after_prefix, after_spaces, is_blank, and_then,
  splitlines, join_with,
}
use saga_forge.Deltas.Grammar.{req_heading}
use saga_forge.Deltas.Sections.{is_fence, toggle, fenced}

-- The spaces at the head of a text.
abbrev take_spaces_onto : Bool → Char → String → String
take_spaces_onto true c more = String.◌∷◌ c more
take_spaces_onto false c more = String.[]

leading_spaces : String → String
unfolding is_space
leading_spaces String.[] = String.[]
leading_spaces (String.◌∷◌ c s) = take_spaces_onto (is_space c) c (leading_spaces s)

-- A text without its last character.
init : String → String
init String.[] = String.[]
init (String.◌∷◌ c String.[]) = String.[]
init (String.◌∷◌ c s) = String.◌∷◌ c (init s)

abbrev title_behind : String → String → String → String → String
title_behind line spaces String.[] new =
    if str_eq (init spaces) "" then line else cat "###" (cat (init spaces) new)
title_behind line spaces _ new = cat "###" (cat spaces new)

abbrev retitle_after : String → Option String → String → String
retitle_after line none new = line
retitle_after line (some t) new =
    if str_eq (leading_spaces t) ""
    then line
    else title_behind line (leading_spaces t) (skip_spaces t) new

-- `re.sub(r"^(###\s+).+$", …, line)`: the spaces give one back where nothing else follows.
unfoldable pub retitle_line : String → String → String
unfolding leading_spaces init skip_spaces after_prefix
retitle_line line new = retitle_after line (after_prefix "###" line) new

unfoldable pub retitle_first : List String → String → List String
unfolding req_heading retitle_line
retitle_first [] new = []
retitle_first (line ∷ ls) new =
    if is_some (req_heading line) then retitle_line line new ∷ ls else line ∷ retitle_first ls new

-- `_retitle`
unfoldable pub retitle : String → String → String
unfolding retitle_first strip
retitle section heading =
    cat (join_with "\n" (retitle_first (splitlines section) (strip heading))) "\n"

-- `^##\s+Requirements\s*$` and `^##\s`
abbrev is_requirements : String → Bool
is_requirements line =
    elim (and_then (and_then (after_prefix "##" line) after_spaces) (after_prefix "Requirements")) [
      | none ↦ false
      | some t ↦ is_blank t
    ]

abbrev is_section : String → Bool
is_section line = elim (and_then (after_prefix "##" line) after_spaces) [
  | none ↦ false
  | some _ ↦ true
]

abbrev push_line : String → Option (List String × List String) → Option (List String × List String)
push_line line none = none
push_line line (some (a, b)) = some (line ∷ a, b)

-- The lines up to the first section behind a point, and from it on.
until_section : Bool → List String → Option (List String × List String)
unfolding is_fence after_prefix after_spaces
until_section inside [] = none
until_section inside (line ∷ ls) =
    let later = push_line line (until_section (toggle inside line) ls) in
    if not (fenced inside line) && is_section line then some ([], line ∷ ls) else later

-- The lines up to the section behind `## Requirements`, and from it on.
place : Bool → List String → Option (List String × List String)
unfolding until_section
place inside [] = none
place inside (line ∷ ls) =
    let later = place (toggle inside line) ls in
    let found = until_section (toggle inside line) ls in
    let chosen = if not (fenced inside line) && is_requirements line then found else later in
    push_line line chosen

abbrev placed : List String → String → Option (List String × List String) → String
placed ls block none = cat (join_with "\n" ls) (cat "\n\n" (cat (rstrip block) "\n"))
placed ls block (some (head, tail)) =
    cat (rstrip (join_with "\n" head))
      (cat "\n\n" (cat (rstrip block) (cat "\n\n" (cat (join_with "\n" tail) "\n"))))

-- `_add_requirement`
unfoldable pub add_requirement : String → String → String
unfolding place rstrip
add_requirement text block = let ls = splitlines (rstrip text) in placed ls block (place false ls)
