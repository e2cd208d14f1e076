-- ===== src/Context/Name.antt =====
-- `_is_placeholder`, `_fallback_name` and `_spec_name`: the name that is recorded for a spec.
use saga_forge.Base.{
  Bool, true, false, not, ◌&&◌, ◌||◌, List, [], ◌∷◌, Char, String, Option, none, some, str_eq,
  if◌then◌else◌,
}
use saga_forge.Json.{Json, null, bool, num, str, arr, obj}
use saga_forge.Text.{after_folded, is, is_digit, strip, after_prefix, skip_spaces, splitlines}
use saga_forge.Context.State.{Env}

-- The whole text is `word`, under `re.I`.
abbrev same_folded : String → String → Bool
same_folded s word = elim (after_folded word s) [ some String.[] ↦ true | _ ↦ false ]

abbrev opens_bracket : Char → Bool
opens_bracket c = is c b'[' || is c b'<' || is c b'{'

abbrev closes_bracket : Char → Bool
closes_bracket c = is c b']' || is c b'>' || is c b'}'

-- `.*[\]>}]` up to the end of a text.
ends_closed : String → Bool
ends_closed String.[] = false
ends_closed (String.◌∷◌ c String.[]) = closes_bracket c
ends_closed (String.◌∷◌ c s) = not (is c 10) && ends_closed s

bracketed : String → Bool
bracketed String.[] = false
bracketed (String.◌∷◌ c s) = opens_bracket c && ends_closed s

unfoldable pub is_placeholder : String → Bool
unfolding after_folded bracketed ends_closed strip
is_placeholder title =
    let t = strip title in
    bracketed t || same_folded t "tbd" || same_folded t "todo" || same_folded t "feature name"

-- `_is_placeholder(str(v))`: the text of a list or an object stands in brackets.
abbrev pub is_placeholder_json : Json → Bool
is_placeholder_json null = false
is_placeholder_json (bool _) = false
is_placeholder_json (num _) = false
is_placeholder_json (str s) = is_placeholder s
is_placeholder_json (arr _) = true
is_placeholder_json (obj _) = true

drop_digits : String → String
drop_digits String.[] = String.[]
drop_digits (String.◌∷◌ c s) =
    let rest = drop_digits s in if is_digit c then rest else String.◌∷◌ c s

-- `PREFIX_RE`, `^(\d+)-`: the text behind it.
unfoldable pub after_number : String → Option String
unfolding drop_digits is_digit after_prefix
after_number String.[] = none
after_number (String.◌∷◌ c s) = if is_digit c then after_prefix "-" (drop_digits s) else none

abbrev or_text : Option String → String → String
or_text none d = d
or_text (some s) d = s

abbrev or_nonempty : String → String → String
or_nonempty s d = if str_eq s "" then d else s

-- `slug.replace("-", " ")`
unfoldable pub dashes_to_spaces : String → String
dashes_to_spaces String.[] = String.[]
dashes_to_spaces (String.◌∷◌ c s) = String.◌∷◌ (if is c b'-' then " " else c) (dashes_to_spaces s)

unfoldable pub fallback_name : Env → String
unfolding after_number dashes_to_spaces strip
fallback_name env =
    or_nonempty (strip (dashes_to_spaces (or_text (after_number env.name) env.name))) env.name

abbrev after_colon : Option String → Option String
after_colon none = none
after_colon (some s) = after_prefix ":" (skip_spaces s)

abbrev or_else : Option String → Option String → Option String
or_else (some s) o = some s
or_else none o = o

abbrev without_label : Option String → String → String
without_label none title = title
without_label (some s) title = skip_spaces s

-- `re.sub(r"^(Feature Specification|Spec|Feature)\s*:\s*", "", title)`
unfoldable pub strip_label : String → String
unfolding after_prefix skip_spaces
strip_label title =
    without_label
      (or_else (after_colon (after_prefix "Feature Specification" title)) (
        or_else (after_colon (after_prefix "Spec" title))
          (after_colon (after_prefix "Feature" title))))
      title

-- The title on a line `# …`, unless it is empty or still a placeholder.
abbrev accept_title : String → Option String
accept_title title = if str_eq title "" || is_placeholder title then none else some title

abbrev title_after : Option String → Option String
title_after none = none
title_after (some rest) = accept_title (strip_label (strip rest))

abbrev line_title : String → Option String
line_title line = title_after (after_prefix "# " (strip line))

first_title : List String → Option String
first_title [] = none
first_title (l ∷ ls) = or_else (line_title l) (first_title ls)

abbrev file_title : Option String → Option String
file_title none = none
file_title (some text) = first_title (splitlines text)

unfoldable pub spec_name : Env → Option String → String
unfolding first_title fallback_name strip_label is_placeholder
spec_name env spec = or_text (file_title spec) (fallback_name env)
