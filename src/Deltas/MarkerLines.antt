-- ===== src/Deltas/MarkerLines.antt =====
-- The marker lines of a requirement: `_touches_globs`, `_keep_marker` and `adopted_sources`.
use saga_forge.Base.{
  Bool, true, false, not, ◌||◌, List, [], ◌∷◌, ◌++◌, String, Char, Option, none, some,
  if◌then◌else◌, str_eq, elem, is_some, keep,
}
use saga_forge.Text.{
  is, cat, skip_spaces, strip, after_prefix, after_spaces, is_blank, and_then, join_with,
}

-- The text up to a closing ` -->` that ends the line: `(.+?)\s*-->\s*$`.
abbrev comment_end : String → Bool
comment_end s = elim (after_prefix "-->" (skip_spaces s)) [ none ↦ false | some t ↦ is_blank t ]

abbrev onto_some : Char → Option String → Option String
onto_some c none = none
onto_some c (some s) = some (String.◌∷◌ c s)

lazy_until : String → Option String
unfolding skip_spaces after_prefix
lazy_until String.[] = none
lazy_until (String.◌∷◌ c s) =
    let later = onto_some c (lazy_until s) in
    if comment_end s then some (String.◌∷◌ c String.[]) else later

abbrev or_later : Option String → Option String → Option String
or_later (some x) later = some x
or_later none later = later

-- Where nothing else stands before the arrow, the spaces give one back.
abbrev one_space : String → Option String
one_space u = and_then (after_spaces u) (λ v. if comment_end v then some " " else none)

-- `^\s*<!--\s*NAME:\s*(.+?)\s*-->\s*$`, its group
abbrev marker_text : String → String → Option String
marker_text name line = and_then (after_prefix "<!--" (skip_spaces line)) (λ t.
    and_then (after_prefix name (skip_spaces t))
      (λ u. or_later (lazy_until (skip_spaces u)) (one_space u)))

unfoldable pub touches_text : String → Option String
unfolding lazy_until skip_spaces after_prefix
touches_text = marker_text "touches:"

unfoldable pub aligns_text : String → Option String
unfolding lazy_until skip_spaces after_prefix
aligns_text = marker_text "aligns:"

unfoldable pub adopted_text : String → Option String
unfolding lazy_until skip_spaces after_prefix
adopted_text = marker_text "adopted:"

unfoldable pub is_touches : String → Bool
unfolding touches_text
is_touches line = is_some (touches_text line)

unfoldable pub is_aligns : String → Bool
unfolding aligns_text
is_aligns line = is_some (aligns_text line)

unfoldable pub is_adopted : String → Bool
unfolding adopted_text
is_adopted line = is_some (adopted_text line)

abbrev cut : Bool → Char → List String → List String
cut true c parts = "" ∷ parts
cut false c [] = String.◌∷◌ c String.[] ∷ []
cut false c (p ∷ parts) = String.◌∷◌ c p ∷ parts

-- `text.split(",")`
unfoldable pub split_commas : String → List String
split_commas String.[] = "" ∷ []
split_commas (String.◌∷◌ c s) = cut (is c b',') c (split_commas s)

abbrev strip_onto : String → List String → List String
strip_onto s ss = if str_eq s "" then ss else s ∷ ss

unfoldable pub clean_parts : List String → List String
unfolding strip
clean_parts [] = []
clean_parts (s ∷ ss) = strip_onto (strip s) (clean_parts ss)

abbrev pub globs_in : Option String → List String
globs_in none = []
globs_in (some text) = clean_parts (split_commas text)

-- `_touches_globs`
unfoldable pub touches_globs : List String → List String
unfolding touches_text clean_parts split_commas
touches_globs (heading ∷ line ∷ ls) = globs_in (touches_text line)
touches_globs _ = []

-- `", ".join(globs)` in the marker.
abbrev pub touches_line : List String → String
touches_line globs = cat "<!-- touches: " (cat (join_with ", " globs) " -->")

abbrev pub drop_touches : List String → List String
drop_touches [] = []
drop_touches (line ∷ ls) = if is_touches line then ls else line ∷ ls

abbrev pub with_globs : String → List String → List String → List String → List String
with_globs heading [] aligns rest = heading ∷ (aligns ++ rest)
with_globs heading (g ∷ gs) aligns rest =
    heading ∷ touches_line (g ∷ gs) ∷ (aligns ++ drop_touches rest)

-- The globs of the old marker, and those of the new one that are not among them. The new ones are
-- all compared with the old list, before it grows.
abbrev pub widened : List String → List String → List String
widened old new = old ++ keep (λ g. not (elem g old)) new

-- `_keep_marker`
unfoldable pub keep_marker : List String → List String → List String
unfolding is_adopted is_aligns is_touches touches_globs
keep_marker old [] = []
keep_marker old (heading ∷ body) =
    with_globs heading (widened (touches_globs old) (touches_globs (heading ∷ body)))
      (keep is_aligns old) (keep (λ l. not (is_aligns l)) (keep (λ l. not (is_adopted l)) body))

-- `adopted_sources(section)` finds a marker: in one of the two lines under the heading.
unfoldable pub has_adopted : List String → Bool
unfolding is_adopted
has_adopted (heading ∷ a ∷ b ∷ ls) = is_adopted a || is_adopted b
has_adopted (heading ∷ a ∷ []) = is_adopted a
has_adopted _ = false
