-- ===== src/Resolver/Slices.antt =====
-- `requirement_slices`: the requirements of a living spec with their markers, and which of them a
-- change reads.
use saga_forge.Base.{
  ℕ, zero, suc, length, Bool, true, false, not, ◌&&◌, ◌||◌, List, [], ◌∷◌, Char, String, Option,
  none, some, if◌then◌else◌, is_some, any, keep,
}
use saga_forge.Text.{
  rstrip, strip, after_prefix, after_spaces, is_blank, and_then, splitlines, join_with,
}
use saga_forge.Deltas.{is_fence, toggle, fenced}
use saga_forge.Deltas.{touches_text, adopted_text, aligns_text, globs_in, clean_parts, split_commas}
use saga_forge.Resolver.Glob.{posix, glob_matches}

-- The last character of a text that has two at least.
abbrev last_of : Char → String → String → String
last_of c String.[] later = String.◌∷◌ c String.[]
last_of c (String.◌∷◌ _ _) later = later

unfoldable pub last_char : String → String
last_char String.[] = String.[]
last_char (String.◌∷◌ c s) = last_of c s (last_char s)

abbrev lone_space : String → Option String
lone_space String.[] = none
lone_space (String.◌∷◌ c String.[]) = none
lone_space (String.◌∷◌ c s) = some (last_char s)

-- `\s+(.+?)\s*$`, its group: where nothing but spaces follows, the last of two or more.
abbrev pub title_of : String → String → Option String
title_of t String.[] = lone_space t
title_of t u = some (rstrip u)

-- `^###(?!#)\s+(.+?)\s*$`, its group
unfoldable pub slice_heading : String → Option String
unfolding last_char rstrip after_prefix after_spaces
slice_heading line =
    and_then (after_prefix "###" line) (λ t. and_then (after_spaces t) (title_of t))

abbrev opens_with : String → String → Bool
opens_with p line = is_some (and_then (after_prefix p line) after_spaces)

-- `is_heading` and `is_section`, on a line outside of the fences
unfoldable pub ends_slice : String → Bool
unfolding after_prefix after_spaces
ends_slice line = opens_with "###" line || opens_with "##" line

-- The lines up to the next heading or section, and those from there on with `fenced` before them.
pub record Split : Type 0 where
  pub body : List String
  pub inside : Bool
  pub rest : List String

abbrev push_body : String → Split → Split
push_body line s = record s { body = line ∷ s.body }

abbrev pub split_step : Bool → String → List String → Split → Split
split_step inside line ls more =
    if not (fenced inside line) && ends_slice line
    then record { body = []; inside = inside; rest = line ∷ ls }
    else push_body line more

-- The search for `j`
unfoldable pub split_slice : Bool → List String → Split
unfolding is_fence ends_slice
split_slice inside [] = record { body = []; inside = inside; rest = [] }
split_slice inside (line ∷ ls) = split_step inside line ls (split_slice (toggle inside line) ls)

-- What the leading markers of a requirement say. `touches` and `aligns` are `None` when empty.
pub record Marks : Type 0 where
  pub touches : List String
  pub adopted : Option String
  pub aligns : List String

abbrev pub no_marks : Marks
no_marks = record { touches = []; adopted = none; aligns = [] }

abbrev or_globs : List String → Option String → List String
or_globs [] text = globs_in text
or_globs (g ∷ gs) text = g ∷ gs

abbrev strip_text : Option String → Option String
strip_text none = none
strip_text (some s) = some (strip s)

abbrev or_text : Option String → Option String → Option String
or_text none text = strip_text text
or_text (some s) text = some s

abbrev mark : Marks → String → Marks
mark m line = record {
  touches = or_globs m.touches (touches_text line);
  adopted = or_text m.adopted (adopted_text line);
  aligns = or_globs m.aligns (aligns_text line);
}

abbrev pub is_mark : String → Bool
is_mark line =
    is_some (touches_text line) || is_some (adopted_text line) || is_some (aligns_text line)

-- The loop on the body. `rest` is what stands behind the last marker.
unfoldable pub marks_from : Marks → List String → List String → Marks × List String
unfolding touches_text adopted_text aligns_text clean_parts split_commas strip
marks_from m rest [] = (m, rest)
marks_from m rest (line ∷ ls) =
    let blank = marks_from m rest ls in
    let marked = marks_from (mark m line) ls ls in
    if is_blank line then blank else if is_mark line then marked else (m, rest)

pub record Slice : Type 0 where
  pub heading : String
  pub marks : Marks
  pub body : List String

abbrev pub slice : String → List String → Slice
slice heading body =
    let (m, rest) = marks_from no_marks body body in
    record { heading = heading; marks = m; body = rest }

abbrev pub outside : Bool → Option String → Option String
outside true head = none
outside false head = head

-- The loop of `requirement_slices`: behind a heading it goes on at `j`. The fuel counts lines.
unfoldable pub slices_from : ℕ → Bool → List String → List Slice
unfolding is_fence slice_heading split_slice marks_from
slices_from fuel inside [] = []
slices_from zero inside (line ∷ ls) = []
slices_from (suc fuel) inside (line ∷ ls) =
    elim (outside (fenced inside line) (slice_heading line)) [
      | none ↦ slices_from fuel (toggle inside line) ls
      | some heading ↦
          let s = split_slice (toggle inside line) ls in
          slice heading s.body ∷ slices_from fuel s.inside s.rest
    ]

-- `requirement_slices`
unfoldable pub requirement_slices : String → List Slice
unfolding slices_from
requirement_slices text = let ls = splitlines text in slices_from (length ls) false ls

abbrev pub is_unmarked : Slice → Bool
is_unmarked s = elim s.marks.touches [ [] ↦ true | _ ∷ _ ↦ false ]

abbrev pub touched : List String → Slice → Bool
touched changed s = any (λ g. any (λ f. glob_matches g f) changed) s.marks.touches

abbrev pub posix_all : List String → List String
posix_all [] = []
posix_all (f ∷ fs) = posix f ∷ posix_all fs

-- `requirements_for_change`
unfoldable pub requirements_for_change : List Slice → List String → List Slice
unfolding glob_matches posix
requirements_for_change slices changed =
    keep (λ s. is_unmarked s || touched (posix_all changed) s) slices

-- `has_no_markers`
abbrev pub has_no_markers : List Slice → Bool
has_no_markers [] = true
has_no_markers (s ∷ ss) = is_unmarked s && has_no_markers ss

-- `^##\s+Purpose\s*$` and `^##(?!#)\s+`
abbrev is_purpose : String → Bool
is_purpose line =
    elim (and_then (and_then (after_prefix "##" line) after_spaces) (after_prefix "Purpose")) [
      | none ↦ false
      | some t ↦ is_blank t
    ]

-- The lines up to the next section.
until_section : Bool → List String → List String
unfolding is_fence after_prefix after_spaces
until_section inside [] = []
until_section inside (line ∷ ls) =
    let more = line ∷ until_section (toggle inside line) ls in
    if not (fenced inside line) && opens_with "##" line then [] else more

purpose_from : Bool → List String → List String
unfolding is_fence after_prefix after_spaces until_section
purpose_from inside [] = []
purpose_from inside (line ∷ ls) =
    let later = purpose_from (toggle inside line) ls in
    if not (fenced inside line) && is_purpose line
    then line ∷ until_section (toggle inside line) ls
    else later

-- `purpose_section`
unfoldable pub purpose_section : String → String
unfolding purpose_from strip
purpose_section text = strip (join_with "\n" (purpose_from false (splitlines text)))
