-- ===== src/Tests/ResolverTests.antt =====
-- Globs, slices, matching and names of capabilities at concrete inputs.
use saga_forge.Base.{◌≡◌, refl, true, false, ◌||◌, ◌≤◌, [], ◌∷◌, String, none, some, str_eq}
use saga_forge.Text.{starts, cat}
use saga_forge.Resolver.{
  glob_matches, posix, Capability, Repo, matches, specificity, max, text_length, Tree, leaf, file,
  folder, discovered_name, discover_all, requirement_slices, find_orphans, ok,
}
use saga_forge.Resolver.Segments.{slashes, has_double, slashes-glob_matches}
use saga_forge.Resolver.Folders.{is_literal, is_one_line, glob_matches-below}
use saga_forge.Resolver.Distinct.{distinct, Lists, discover_all-Lists}
use saga_forge.Resolver.Specificity.{specificity_bounds}
use saga_forge.Validate.{requirement_headings}
use saga_forge.Validate.Slicing.{slice_titles, heading_titles, slice_titles-requirement_slices}

matches_the_folder : glob_matches "src/checkout/**" "src/checkout" ≡ true
unfolding glob_matches
matches_the_folder = refl

matches_below : glob_matches "src/checkout/**" "src\\checkout/cart/x.ts" ≡ true
unfolding glob_matches
matches_below = refl

matches_at_any_depth : glob_matches "src/**/*.test.ts" "src/a/b.test.ts" ≡ true
unfolding glob_matches
matches_at_any_depth = refl

stays_in_the_segment : glob_matches "src/*.ts" "src/a/b.ts" ≡ false
unfolding glob_matches
stays_in_the_segment = refl

slashes-glob_matches_example : slashes (posix "src/a.ts") ≡ slashes (posix "src/?.*")
unfolding has_double posix glob_matches
slashes-glob_matches_example = slashes-glob_matches "src/?.*" "src/a.ts" refl refl

glob_matches-below_example : glob_matches (cat "src/cart" "/**") "src/cart/x.ts" ≡ (
    str_eq (posix "src/cart/x.ts") (posix "src/cart")
    || starts (posix "src/cart/x.ts") (cat (posix "src/cart") "/"))
unfolding is_literal is_one_line posix
glob_matches-below_example = glob_matches-below "src/cart" "src/cart/x.ts" refl refl

counts_up : discovered_name "notes/stray.spec.md" ("notes" ∷ "notes-2" ∷ []) ≡ some "notes-3"
unfolding discovered_name
counts_up = refl

abbrev checkout : Capability
checkout = record {
  name = "checkout";
  match_globs = "src/checkout/**" ∷ [];
  exclude = "**/*.test.ts" ∷ [];
  spec = "capabilities/checkout/checkout.spec.md";
  spec_defaulted = false;
  retire = false;
}

abbrev sources : Capability
sources = record {
  name = "sources";
  match_globs = "src/**" ∷ [];
  exclude = [];
  spec = "src/sources.spec.md";
  spec_defaulted = false;
  retire = false;
}

abbrev no_files : Repo
no_files = record { is_file = λ p. false; read = λ p. none }

abbrev folders : Tree
folders =
    folder "notes" (file "a.spec.md" (file "b.spec.md" leaf))
      (folder "vendor" (file "living-specs.yml" (file "c.spec.md" leaf)) leaf)

stops_at_a_project :
    find_orphans (checkout ∷ []) folders ≡ ok ("notes/a.spec.md" ∷ "notes/b.spec.md" ∷ [])
unfolding find_orphans saga_forge.Text.after_prefix
stops_at_a_project = refl

discover_all-Lists_example :
    Lists (checkout ∷ sources ∷ []) (discover_all no_files (checkout ∷ sources ∷ []) folders)
unfolding distinct
discover_all-Lists_example = discover_all-Lists no_files (checkout ∷ sources ∷ []) folders refl

specificity_bounds_example :
    (1 ≤ specificity checkout "src/checkout/a.ts")
    × (specificity checkout "src/checkout/a.ts" ≤ max 1 (text_length (posix "src/checkout/a.ts")))
unfolding matches
specificity_bounds_example = specificity_bounds checkout "src/checkout/a.ts" refl

abbrev spec_text : String
spec_text =
    "# Spec\n### One\n<!-- touches: src/** -->\nbody\n```\n### Fenced\n```\n## Uncovered\n### Two\n"

slice_titles-requirement_slices_example :
    slice_titles (requirement_slices spec_text) ≡ heading_titles (requirement_headings spec_text)
slice_titles-requirement_slices_example = slice_titles-requirement_slices spec_text

reads_two_headings : slice_titles (requirement_slices spec_text) ≡ "One" ∷ "Two" ∷ []
unfolding requirement_slices saga_forge.Text.lines saga_forge.Text.is_break saga_forge.Text.is_space
reads_two_headings = refl
