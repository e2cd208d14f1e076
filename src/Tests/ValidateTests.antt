-- ===== src/Tests/ValidateTests.antt =====
-- The shape checks at concrete specs.
use saga_forge.Base.{
  ◌≡◌, refl, Bool, true, ◌&&◌, ◌||◌, [], ◌∷◌, Char, code, String, none, some, leb, any, str_eq,
  if◌then◌else◌,
}
use saga_forge.Text.{lines, is_space}
use saga_forge.Validate.{
  check_living_spec, check_feature_deltas, Known, error, warning, finding, has_near,
  requirement_key, requirement_headings, delta_blocks, is_when_line, sentences_from, in_sentence,
}
use saga_forge.Validate.Errors.{is_error, any_block_fails, has_error-check_feature_deltas}
use saga_forge.Validate.Duplicates.{
  is_duplicate, stands_twice, names_of, is_duplicate-check_living_spec,
}

abbrev ascii_word : Char → Bool
ascii_word k =
    let c = code k in
    (leb 48 c && leb c 57)
    || (leb 65 c && leb c 90)
    || (leb 97 c && leb c 122)
    || (leb 95 c && leb c 95)

abbrev spec : String
spec =
    "### Pay\nIt SHALL pay.\n#### Scenario: due\n- **WHEN** due\n- **THEN** paid\n### Pay\nIt MUST.\n"

finds_a_duplicate :
    check_living_spec ascii_word spec none 0
    ≡ finding none error "duplicate-requirement" 6
      ∷ finding none warning "requirement-without-scenario" 6
      ∷ []
unfolding check_living_spec lines
finds_a_duplicate = refl

abbrev known : Known
known = record {
  is_word = ascii_word;
  names = "billing" ∷ [];
  target = λ name. if str_eq name "billing" then some spec else none;
  default_capability = some "billing";
  removed_of = λ name. "Old rule [inferred]" ∷ [];
}

abbrev feature : String
feature =
    "## ADDED Requirements\n<!-- capability: billing -->\n### Pay late fees\n#### Scenario: late\n- WHEN late\n## REMOVED Requirements\n### Old rule\n### Gone\n## MODIFIED Requirements\n<!-- capability: bills -->\n"

checks_each_block :
    check_feature_deltas known feature
    ≡ finding (some "billing") error "scenario-missing-half" 4
      ∷ finding (some "billing") warning "delta-heading-not-found" 8
      ∷ finding (some "bills") error "unknown-capability" 10
      ∷ []
unfolding check_feature_deltas lines
checks_each_block = refl

drops_the_tag : requirement_key "Old rule [INFERRED]" ≡ "Old rule"
unfolding requirement_key
drops_the_tag = refl

stems_words : has_near "Pages are loaded" ("The page loads" ∷ []) ≡ true
unfolding has_near
stems_words = refl

splits_sentences : sentences_from in_sentence "A. B  c!" ≡ "A." ∷ "B  c!" ∷ []
unfolding sentences_from
splits_sentences = refl

numbered_bullet : is_when_line ascii_word " 2.  **When** x" ≡ true
unfolding is_when_line is_space
numbered_bullet = refl

is_duplicate-check_living_spec_example :
    any is_duplicate (check_living_spec ascii_word spec none 0)
    ≡ stands_twice (names_of (requirement_headings spec))
is_duplicate-check_living_spec_example = is_duplicate-check_living_spec ascii_word spec none 0

has_error-check_feature_deltas_example :
    any is_error (check_feature_deltas known feature)
    ≡ any_block_fails known feature (delta_blocks feature)
has_error-check_feature_deltas_example = has_error-check_feature_deltas known feature
