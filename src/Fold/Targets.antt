-- ===== src/Fold/Targets.antt =====
-- `_resolve_fold_targets` of `living_spec_fold.py`, and the view `markers` of `parse_spec_deltas`.
use saga_forge.Base.{
  ◌&&◌, List, [], ◌∷◌, ◌++◌, String, Option, none, some, str_eq, elem, is_some, if◌then◌else◌,
}
use saga_forge.Text.{join_with, splitlines, starts}
use saga_forge.Deltas.{
  Verb, added, modified, removed, renamed, delta_header, cap_marker, Deltas, Routed,
}
use saga_forge.Resolver.{
  Capability, Repo, Answer, ok, value_error, ◌>>=◌, Entry, entry_of, Hit, match_changed, Tree,
  discover_all, sort_texts,
}

-- `out["markers"]`: for each verb the marker of the last of its blocks that has one
pub record Markers : Type 0 where
  pub of_added : Option String
  pub of_modified : Option String
  pub of_removed : Option String
  pub of_renamed : Option String

abbrev no_markers : Markers
no_markers = record { of_added = none; of_modified = none; of_removed = none; of_renamed = none }

abbrev set_marker : Verb → Option String → Markers → Markers
set_marker v none ms = ms
set_marker added m ms = record ms { of_added = m }
set_marker modified m ms = record ms { of_modified = m }
set_marker removed m ms = record ms { of_removed = m }
set_marker renamed m ms = record ms { of_renamed = m }

abbrev flush_marker : Option Verb → List String → Markers → Markers
flush_marker none buf ms = ms
flush_marker (some v) buf ms = set_marker v (cap_marker (join_with "\n" buf)) ms

abbrev buffered : Option Verb → List String → String → List String
buffered none buf line = buf
buffered (some _) buf line = buf ++ line ∷ []

-- The loop of `parse_spec_deltas`, with the block that is open
unfoldable pub markers_from : Option Verb → List String → Markers → List String → Markers
unfolding delta_header cap_marker
markers_from cur buf ms [] = flush_marker cur buf ms
markers_from cur buf ms (line ∷ ls) = elim (delta_header line) [
  | some v ↦ markers_from (some v) [] (flush_marker cur buf ms) ls
  | none ↦
      let closed = markers_from none [] (flush_marker cur buf ms) ls in
      let more = markers_from cur (buffered cur buf line) ms ls in
      if starts line "## " && is_some cur then closed else more
]

abbrev marker_onto : Option String → List String → List String
marker_onto none names = names
marker_onto (some name) names = if str_eq name "" then names else name ∷ names

abbrev unit_caps : {A : Type 0} → List (Routed A) → List String → List String
unit_caps [] names = names
unit_caps (u ∷ us) names = marker_onto u.cap (unit_caps us names)

abbrev view_names : Markers → List String
view_names ms =
    marker_onto ms.of_added
      (marker_onto ms.of_modified (marker_onto ms.of_removed (marker_onto ms.of_renamed [])))

-- `sorted(marker_names)`, where a name may stand twice: the second is passed over.
unfoldable pub marker_names : String → Deltas → List String
unfolding markers_from sort_texts
marker_names text d = sort_texts (
    unit_caps d.additions (
      unit_caps d.modifications (
        unit_caps d.removals
          (unit_caps d.renames (view_names (markers_from none [] no_markers (splitlines text)))))))

-- The last entry, or capability, of a name, as in a `dict` by name
unfoldable pub entry_named : String → List Entry → Option Entry
entry_named name [] = none
entry_named name (e ∷ es) = elim (entry_named name es) [
  | some k ↦ some k
  | none ↦ if str_eq e.name name then some e else none
]

unfoldable pub capability_named : String → List Capability → Option Capability
capability_named name [] = none
capability_named name (c ∷ cs) = elim (capability_named name cs) [
  | some k ↦ some k
  | none ↦ if str_eq c.name name then some c else none
]

abbrev answered : Answer Entry → Option Entry
answered (ok e) = some e
answered value_error = none

abbrev of_registry : Repo → Option Capability → Option Entry
of_registry repo none = none
of_registry repo (some c) = answered (entry_of repo c)

abbrev or_registry : Option Entry → Option Entry → Option Entry
or_registry (some e) other = some e
or_registry none other = other

abbrev push_target : Option Entry → List Entry → List Entry
push_target none later = later
push_target (some e) later = e ∷ later

abbrev seen_now : Option Entry → String → List String → List String
seen_now none name seen = seen
seen_now (some e) name seen = name ∷ seen

-- The loop over the marker names
unfoldable pub marked_targets :
    Repo → List Capability → List Entry → List String → List String → List Entry
unfolding entry_named capability_named entry_of
marked_targets repo caps entries seen [] = []
marked_targets repo caps entries seen (name ∷ names) =
    let found =
      or_registry (entry_named name entries) (of_registry repo (capability_named name caps)) in
    let skipped = marked_targets repo caps entries seen names in
    let more =
      push_target found (marked_targets repo caps entries (seen_now found name seen) names) in
    if elem name seen then skipped else more

-- The targets, and the name that unmarked deltas go to
pub record FoldTargets : Type 0 where
  pub entries : List Entry
  pub default_name : Option String

abbrev add_marked :
    Repo → List Capability → List Entry → List String → Option (List Entry) → List Entry
add_marked repo caps start names none = start
add_marked repo caps start names (some es) =
    start ++ marked_targets repo caps es (elim start [ [] ↦ [] | e ∷ _ ↦ e.name ∷ [] ]) names

abbrev head_of : List Hit → List Entry
head_of [] = []
head_of (h ∷ _) = h.entry ∷ []

abbrev name_of : List Entry → Option String
name_of [] = none
name_of (e ∷ _) = some e.name

abbrev with_marked : Repo → List Capability → Tree → List String → List Entry → Answer (List Entry)
with_marked repo caps tree [] start = ok start
with_marked repo caps tree (name ∷ names) start = do
  found ← discover_all repo caps tree
  ok (add_marked repo caps start (name ∷ names) found)

abbrev matched_head : Repo → List String → List Capability → Answer (List Entry)
matched_head repo [] caps = ok []
matched_head repo (f ∷ fs) caps = do hits ← match_changed repo (f ∷ fs) caps; ok (head_of hits)

-- `_resolve_fold_targets`, with the files that `git` names as changed
unfoldable pub resolve_fold_targets :
    Repo → Tree → List String → List Capability → List String → Answer FoldTargets
unfolding match_changed discover_all marked_targets
resolve_fold_targets repo tree changed caps names = do
  start ← matched_head repo changed caps
  entries ← with_marked repo caps tree names start
  ok (record { entries = entries; default_name = name_of start })
