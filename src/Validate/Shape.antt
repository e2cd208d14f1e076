-- ===== src/Validate/Shape.antt =====
-- `check_living_spec` of `living_validate.py` with `root=None`, the check that the fold takes before
-- a write. A finding is without its texts for a reader (`message` and `fix`) and its `path`.
use saga_forge.Base.{
  ℕ, suc, ◌+◌, Bool, false, not, ◌&&◌, ◌||◌, List, [], ◌∷◌, ◌++◌, Char, String, Option, none, some,
  ltb, ◌==◌, if◌then◌else◌, is_some, length, any, keep, elem,
}
use saga_forge.Text.{skip_spaces, starts, after_prefix, splitlines, str_lt}
use saga_forge.Deltas.{is_fence, toggle, fenced, fences_are_balanced}
use saga_forge.Resolver.{slice_heading, outside}
use saga_forge.Validate.Patterns.{
  is_section_line, is_scenario_line, is_when_line, is_then_line, normative_from, sentences_from,
  words_from, in_sentence,
}

pub data Severity : Type 0 where
  error warning : Severity

pub record Finding : Type 0 where
  pub severity : Severity
  pub kind : String
  pub line : ℕ
  pub capability : Option String

-- A line with its flag of `_fence_flags` and its number from one
pub record Row : Type 0 where
  pub text : String
  pub hidden : Bool
  pub number : ℕ

unfoldable pub rows_from : Bool → ℕ → List String → List Row
unfolding is_fence
rows_from inside i [] = []
rows_from inside i (line ∷ ls) =
    record { text = line; hidden = fenced inside line; number = suc i }
    ∷ rows_from (toggle inside line) (suc i) ls

-- `is_req`, with its heading
abbrev pub heading_of : Row → Option String
heading_of r = outside r.hidden (slice_heading r.text)

abbrev is_section : Row → Bool
is_section r = not r.hidden && is_section_line r.text

abbrev pub is_scenario : Row → Bool
is_scenario r = not r.hidden && is_scenario_line r.text

-- The rows before the first that passes the test
unfoldable pub rows_before : (Row → Bool) → List Row → List Row
rows_before test [] = []
rows_before test (r ∷ rs) = let more = r ∷ rows_before test rs in if test r then [] else more

-- The lines of a requirement: those up to `j`
abbrev pub body_of : List Row → List Row
body_of rs = rows_before (λ r. is_some (heading_of r) || is_section r) rs

-- The lines of its rule: before the first scenario, outside of fences, no comments
abbrev pub prose_of : List Row → List Row
prose_of rs =
    keep (λ r. not r.hidden && not (starts (skip_spaces r.text) "<!--"))
      (rows_before is_scenario rs)

abbrev pub sum_of : (Row → ℕ) → List Row → ℕ
sum_of f [] = 0
sum_of f (r ∷ rs) = f r + sum_of f rs

-- `MAX_RULES` and `MAX_REQUIREMENT_WORDS`
abbrev pub max_rules : ℕ
max_rules = 4

abbrev pub max_requirement_words : ℕ
max_requirement_words = 120

abbrev pub has_line : (String → Bool) → List Row → Bool
has_line test rs = any (λ r. not r.hidden && test r.text) rs

module _ (capability : Option String) where
  abbrev pub finding : Severity → String → ℕ → Finding
  finding severity kind line = record {
    severity = severity;
    kind = kind;
    line = line;
    capability = capability;
  }

  abbrev pub duplicate_at : List String → String → ℕ → List Finding
  duplicate_at seen heading line =
      if elem heading seen then finding error "duplicate-requirement" line ∷ [] else []

  abbrev pub no_scenario_at : ℕ → List Row → List Finding
  no_scenario_at line body =
      if any is_scenario body then [] else finding warning "requirement-without-scenario" line ∷ []

  abbrev pub fence_finding : String → List Finding
  fence_finding text =
      if fences_are_balanced text then [] else finding warning "unbalanced-fence" 1 ∷ []

  module _ (is_word : Char → Bool) where
    abbrev pub rules_in : Row → ℕ
    rules_in r = length (keep (normative_from is_word false) (sentences_from in_sentence r.text))

    abbrev pub size_at : ℕ → List Row → List Finding
    size_at line prose =
        if ltb max_rules (sum_of rules_in prose)
        then finding warning "requirement-bundles-rules" line ∷ []
        else if ltb max_requirement_words (sum_of (λ r. words_from false r.text) prose)
        then finding warning "requirement-too-wordy" line ∷ []
        else []

    abbrev pub half_at : Row → List Row → List Finding
    half_at r body =
        if has_line (is_when_line is_word) body && has_line (is_then_line is_word) body
        then []
        else finding error "scenario-missing-half" r.number ∷ []

    -- The scenarios of a requirement, each with the lines up to the next
    unfoldable pub scenarios_from : List Row → List Finding
    unfolding rows_before is_scenario_line is_when_line is_then_line
    scenarios_from [] = []
    scenarios_from (r ∷ rs) =
        (if is_scenario r then half_at r (rows_before is_scenario rs) else []) ++ scenarios_from rs

    abbrev pub requirement_at : List String → String → ℕ → List Row → List Finding
    requirement_at seen heading line body =
        duplicate_at seen heading line
        ++ (no_scenario_at line body ++ (size_at line (prose_of body) ++ scenarios_from body))

    abbrev pub findings_at :
        List String → Option String → ℕ → List Row → (List String → List Finding) → List Finding
    findings_at seen none line rs more = more seen
    findings_at seen (some heading) line rs more =
        requirement_at seen heading line (body_of rs) ++ more (heading ∷ seen)

    -- The loop over the requirements. No line between `i` and `j` is a heading, so that a walk over
    -- each line finds the requirements of the jump.
    unfoldable pub check_rows : List String → List Row → List Finding
    unfolding rows_before slice_heading is_section_line is_scenario_line scenarios_from
        normative_from sentences_from words_from skip_spaces after_prefix
    check_rows seen [] = []
    check_rows seen (r ∷ rs) =
        findings_at seen (heading_of r) r.number rs (λ now. check_rows now rs)

abbrev pub all_shifted : ℕ → List Finding → List Finding
all_shifted offset [] = []
all_shifted offset (f ∷ fs) = record f { line = f.line + offset } ∷ all_shifted offset fs

-- `(line, code)` of the second is less.
abbrev pub precedes : Finding → Finding → Bool
precedes g f = ltb g.line f.line || (g.line == f.line && str_lt g.kind f.kind)

unfoldable pub insert_finding : Finding → List Finding → List Finding
insert_finding f [] = f ∷ []
insert_finding f (g ∷ gs) =
    let more = g ∷ insert_finding f gs in if precedes g f then more else f ∷ g ∷ gs

-- `findings.sort(key=lambda f: (f["line"], f["code"]))`
unfoldable pub sort_findings : List Finding → List Finding
unfolding insert_finding
sort_findings [] = []
sort_findings (f ∷ fs) = insert_finding f (sort_findings fs)

-- `check_living_spec(text, path, root=None, capability, offset)`
unfoldable pub check_living_spec : (Char → Bool) → String → Option String → ℕ → List Finding
unfolding rows_from check_rows sort_findings fences_are_balanced
check_living_spec is_word text capability offset = sort_findings (
    all_shifted offset (
      check_rows capability is_word [] (rows_from false 0 (splitlines text))
      ++ fence_finding capability text))
