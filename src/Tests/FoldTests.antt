-- ===== src/Tests/FoldTests.antt =====
-- Runs of the fold of a feature spec.
use saga_forge.Base.{
  ◌≡◌, refl, true, false, [], ◌∷◌, String, some, none, ◌||◌, leb, code, ◌&&◌, if◌then◌else◌,
}
use saga_forge.Text.{lines}
use saga_forge.Deltas.{parse_spec_deltas, has_deltas}
use saga_forge.Resolver.{Capability, Repo, leaf}
use saga_forge.Validate.{Known, check_feature_deltas}
use saga_forge.Fold.{Host, Feature, fold_living_spec, folded, unchanged}
use saga_forge.Fold.Living.{Guarded, targets_of, fold_living_spec-Guarded}

abbrev host : Host
host = record {
  is_word = λ k.
      (leb 48 (code k) && leb (code k) 57)
      || (leb 65 (code k) && leb (code k) 90)
      || (leb 95 (code k) && leb (code k) 95)
      || (leb 97 (code k) && leb (code k) 122);
  upper = λ c. if leb 98 (code c) && leb (code c) 98 then "B" else String.◌∷◌ c "";
  can_read = λ p. true;
  can_write = λ p. true;
}

abbrev repo : Repo
repo = record { is_file = λ p. false; read = λ p. none }

abbrev billing : Capability
billing = record {
  name = "billing";
  match_globs = "src/**" ∷ [];
  exclude = [];
  spec = "capabilities/billing/spec.md";
  spec_defaulted = false;
  retire = false;
}

abbrev with_spec : String → Feature
with_spec text = record {
  enabled = true;
  spec = some text;
  loaded = [];
  changed = "src/pay.py" ∷ [];
  capabilities = billing ∷ [];
}

abbrev sound : String
sound =
    "## ADDED Requirements\n### Pay\nIt SHALL pay.\n#### Scenario: due\n- **WHEN** due\n- **THEN** paid\n"

abbrev broken : String
broken = "## ADDED Requirements\n### Pay\nIt SHALL pay.\n#### Scenario: due\n- **WHEN** due\n"

creates_a_spec : (fold_living_spec host repo leaf [] (with_spec sound)).1 ≡ folded ("billing" ∷ [])
unfolding fold_living_spec lines
creates_a_spec = refl

refuses_half_a_scenario : fold_living_spec host repo leaf [] (with_spec broken) ≡ ([], unchanged)
unfolding fold_living_spec lines
refuses_half_a_scenario = refl

abbrev in_a_fence : String
in_a_fence = "```\n## ADDED Requirements\n### Pay\n#### Scenario: due\n```\n"

abbrev no_one : Known
no_one = record {
  is_word = host.is_word;
  names = [];
  target = λ name. none;
  default_capability = some "billing";
  removed_of = λ name. [];
}

check_skips_the_fence : check_feature_deltas no_one in_a_fence ≡ []
unfolding check_feature_deltas lines
check_skips_the_fence = refl

fold_reads_the_fence : has_deltas (parse_spec_deltas in_a_fence) ≡ true
unfolding parse_spec_deltas lines
fold_reads_the_fence = refl

fold_living_spec-Guarded_example :
    Guarded host []
      (targets_of repo leaf (with_spec sound))
      (some sound)
      "capabilities/billing/spec.md"
      (fold_living_spec host repo leaf [] (with_spec sound))
fold_living_spec-Guarded_example =
    fold_living_spec-Guarded host repo leaf [] (with_spec sound) "capabilities/billing/spec.md"
