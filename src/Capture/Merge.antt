-- ===== src/Capture/Merge.antt =====
-- The merges of `capture.py`, as functions on a value of the context and what is to be added.
use saga_forge.Base.{
  Bool, false, List, [], ◌∷◌, ◌++◌, String, Option, none, some, if◌then◌else◌, str_eq, any, map,
}
use saga_forge.Json.{Json, str, obj, empty, entry, json_eq, get, list_or_empty}
use saga_forge.Text.{strip}

-- `n.strip()` of each, without the ones that are empty.
abbrev pub or_drop : String → List String → List String
or_drop s ss = if str_eq s "" then ss else s ∷ ss

unfoldable pub cleaned : List String → List String
unfolding strip
cleaned [] = []
cleaned (s ∷ ss) = or_drop (strip s) (cleaned ss)

-- `for v in values: if v not in merged: merged.append(v)`
unfoldable pub merge_onto : List Json → List Json → List Json
unfolding json_eq
merge_onto merged [] = merged
merge_onto merged (v ∷ vs) =
    merge_onto (if any (json_eq v) merged then merged else merged ++ v ∷ []) vs

-- The stored list with the new texts behind it, each value once.
unfoldable pub merged_names : Json → List String → List Json
unfolding merge_onto
merged_names prior names = merge_onto [] (list_or_empty prior ++ map str names)

-- `_entry_identity`
abbrev text_identity : Json → Option String
text_identity (str s) = some (strip s)
text_identity _ = none

unfoldable pub entry_identity : String → Json → Option String
unfolding strip
entry_identity key (obj d) = text_identity (get key d)
entry_identity key (str s) = some (strip s)
entry_identity key _ = none

abbrev has_identity : String → String → Json → Bool
has_identity key id v = elim (entry_identity key v) [ none ↦ false | some other ↦ str_eq other id ]

-- `merged[seen[ident]] = item`: the first entry of that identity is replaced.
unfoldable pub replace_entry : String → String → Json → List Json → List Json
replace_entry key id item [] = []
replace_entry key id item (v ∷ vs) =
    if has_identity key id v then item ∷ vs else v ∷ replace_entry key id item vs

abbrev add_identified : String → Bool → Json → Option String → List Json → List Json
add_identified key replacing item none merged = merged ++ item ∷ []
add_identified key replacing item (some id) merged =
    if any (has_identity key id) merged
    then if replacing then replace_entry key id item merged else merged
    else merged ++ item ∷ []

-- The loop of `append_capture_entries`; `replacing` holds for the new entries of a `replace` call.
unfoldable pub merge_entries : String → Bool → List Json → List Json → List Json
unfolding entry_identity replace_entry
merge_entries key replacing merged [] = merged
merge_entries key replacing merged (item ∷ items) =
    merge_entries key replacing (add_identified key replacing item (entry_identity key item) merged)
      items

unfoldable pub merged_entries : String → Bool → Json → List Json → List Json
unfolding merge_entries
merged_entries key replace prior entries =
    merge_entries key replace (merge_entries key false [] (list_or_empty prior)) entries

-- A skip that is recorded: a name and a reason.
pub record Skip : Type 0 where
  pub name : String
  pub reason : String

abbrev pub skip_entry : Skip → Json
skip_entry s = obj (entry "name" (str s.name) (entry "reason" (str s.reason) empty))

-- A skip must name a capability and give a reason.
abbrev pub keep_skip : Skip → List Skip → List Skip
keep_skip s ss = if str_eq s.name "" then ss else if str_eq s.reason "" then ss else s ∷ ss

unfoldable pub cleaned_skips : List Skip → List Skip
unfolding strip
cleaned_skips [] = []
cleaned_skips (s ∷ ss) =
    keep_skip (record { name = strip s.name; reason = strip s.reason }) (cleaned_skips ss)

-- `str(e.get("name", "")).strip()` of an entry that is an object whose name is a text.
abbrev skip_name : Json → Option String
skip_name (obj d) = text_identity (get "name" d)
skip_name _ = none

abbrev skips_name : String → Json → Bool
skips_name name v = elim (skip_name v) [ none ↦ false | some other ↦ str_eq other name ]

unfoldable pub merge_skips : List Json → List Skip → List Json
unfolding strip
merge_skips merged [] = merged
merge_skips merged (s ∷ ss) =
    merge_skips (if any (skips_name s.name) merged then merged else merged ++ skip_entry s ∷ []) ss
