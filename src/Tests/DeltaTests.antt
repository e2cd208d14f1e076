-- ===== src/Tests/DeltaTests.antt =====
-- The theorems on renames, applied to a chain, a cycle and a repeated heading.
use saga_forge.Base.{List, [], ◌∷◌, String, none, some, false, refl, ◌≡◌}
use saga_forge.Deltas.{requirement_span, span_from, find, rename_map, resolve_rename}
use saga_forge.Text.{strip, splitlines}
use saga_forge.Deltas.{fences_are_balanced, is_fence}
use saga_forge.Base.{str_eq}
use saga_forge.Deltas.{has_deltas, deltas_for, parse_spec_deltas}
use saga_forge.Deltas.Routing.{has_deltas-deltas_for}
use saga_forge.Deltas.Spans.{IsSpan, requirement_span-IsSpan}
use saga_forge.Base.{elem, true}
use saga_forge.Deltas.{keep_marker, is_aligns}
use saga_forge.Deltas.Keeping.{elem-keep_marker}
use saga_forge.Deltas.Resolving.{find-resolve_rename}

abbrev renames : List (String × String)
renames = ("A", "B") ∷ ("B", "C") ∷ ("A", "Z") ∷ ("P", "Q") ∷ ("Q", "P") ∷ []

follows_the_chain : resolve_rename "A" (rename_map renames) ≡ "C"
unfolding resolve_rename rename_map
follows_the_chain = refl

leaves_the_cycle : resolve_rename "P" (rename_map renames) ≡ "P"
unfolding resolve_rename rename_map
leaves_the_cycle = refl

find-resolve_rename_example :
    find (resolve_rename "A" (rename_map renames)) (rename_map renames) ≡ none
find-resolve_rename_example = find-resolve_rename renames "A"

abbrev spec_lines : List String
spec_lines = "# Spec" ∷ "### Old" ∷ "text" ∷ "### New" ∷ []

requirement_span-IsSpan_example :
    IsSpan false (strip "Old") spec_lines (requirement_span spec_lines "Old")
requirement_span-IsSpan_example = requirement_span-IsSpan spec_lines "Old"

splits_at_the_heading :
    requirement_span spec_lines "Old"
    ≡ some (record {
      before = "# Spec" ∷ [];
      section = "### Old" ∷ "text" ∷ [];
      after = "### New" ∷ [];
    })
unfolding span_from strip
splits_at_the_heading = refl

elem-keep_marker_example :
    elem "<!-- aligns: core/B -->" (
      keep_marker
        ("### A" ∷ "<!-- aligns: core/B -->" ∷ "old text" ∷ [])
        ("### A" ∷ "new text" ∷ []))
    ≡ true
unfolding is_aligns saga_forge.Text.is_space
elem-keep_marker_example =
    elem-keep_marker ("### A" ∷ "<!-- aligns: core/B -->" ∷ "old text" ∷ []) ("new text" ∷ [])
      "### A" "<!-- aligns: core/B -->" refl refl

unbalanced : fences_are_balanced "```\n### Shown\n" ≡ false
unfolding fences_are_balanced is_fence saga_forge.Text.is_break saga_forge.Text.lines
    saga_forge.Text.is_space
unbalanced = refl

abbrev two_blocks : String
two_blocks =
    "## ADDED Requirements\n<!-- capability: core -->\n### A\n## MODIFIED Requirements\n### B\n"

has_deltas-deltas_for_example :
    has_deltas (
      deltas_for
        (deltas_for (parse_spec_deltas two_blocks) "core" (str_eq "core" "app"))
        "app"
        (str_eq "app" "app"))
    ≡ false
has_deltas-deltas_for_example =
    has_deltas-deltas_for (parse_spec_deltas two_blocks) "core" "app" "app" refl
