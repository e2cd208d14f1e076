-- ===== src/Validate/Duplicates.antt =====
-- The duplicates that `check_living_spec` reports, against the headings of `_requirement_headings`.
use saga_forge.Base.{
  ℕ, suc, ◌+◌, Bool, true, false, ◌&&◌, ◌||◌, List, [], ◌∷◌, ◌++◌, Char, String, Option, none, some,
  ◌≡◌, refl, ap, ◌∙◌, inl, inr, Bool-cases, str_eq, str_eq_sym, elem, any, any-append, map,
  if◌then◌else◌, arith, ltb,
}
use saga_forge.Text.{splitlines}
use saga_forge.Deltas.{toggle, fenced, fences_are_balanced}
use saga_forge.Resolver.{slice_heading, outside}
use saga_forge.Validate.{
  Finding, error, warning, Row, finding, duplicate_at, no_scenario_at, size_at, half_at,
  scenarios_from, requirement_at, findings_at, check_rows, rows_from, body_of, prose_of,
  fence_finding, all_shifted, check_living_spec, Heading, headings_from, requirement_headings,
  heading_onto, rows_before, is_scenario, has_line, is_when_line, is_then_line, rules_in, sum_of,
  words_from, max_rules, max_requirement_words,
}
use saga_forge.Validate.Errors.{any-sort_findings}

abbrev pub is_duplicate : Finding → Bool
is_duplicate f = str_eq f.kind "duplicate-requirement"

abbrev reports : List Finding → Bool
reports fs = any is_duplicate fs

-- A text stands twice in the list.
unfoldable pub stands_twice : List String → Bool
stands_twice [] = false
stands_twice (s ∷ ss) = elem s ss || stands_twice ss

abbrev pub names_of : List Heading → List String
names_of hs = map (λ h. h.heading) hs

reports-if :
    (b : Bool) (xs ys : List Finding)
    → reports xs ≡ false
    → reports ys ≡ false
    → reports (if b then xs else ys) ≡ false
reports-if true xs ys h k = h
reports-if false xs ys h k = k

reports-append :
    (xs ys : List Finding) → reports xs ≡ false → reports ys ≡ false → reports (xs ++ ys) ≡ false
reports-append xs ys h k = any-append is_duplicate xs ys ∙ ground (arith, h, k)

reports-duplicate_at :
    (to : Option String) (seen : List String) (h : String) (n : ℕ)
    → reports (duplicate_at to seen h n) ≡ elem h seen
reports-duplicate_at to seen h n = elim (Bool-cases (elem h seen)) [
  | inl known ↦ rw known refl
  | inr new ↦ rw new refl
]

-- A heading is in `seen`, or stands behind another of its text.
seen_twice : List String → List String → Bool
seen_twice seen [] = false
seen_twice seen (h ∷ hs) = elem h seen || seen_twice (h ∷ seen) hs

in_some : List String → List String → Bool
in_some seen hs = any (λ h. elem h seen) hs

in_some-cons :
    (x : String) (seen hs : List String) → in_some (x ∷ seen) hs ≡ (elem x hs || in_some seen hs)
unfolding in_some
in_some-cons x seen [] = refl
in_some-cons x seen (h ∷ hs) = ground (arith, in_some-cons x seen hs, str_eq_sym x h)

seen_twice-stands_twice :
    (seen hs : List String) → seen_twice seen hs ≡ (in_some seen hs || stands_twice hs)
unfolding seen_twice in_some stands_twice
seen_twice-stands_twice seen [] = refl
seen_twice-stands_twice seen (h ∷ hs) =
    ground (arith, seen_twice-stands_twice (h ∷ seen) hs, in_some-cons h seen hs)

in_some-nil : (hs : List String) → in_some [] hs ≡ false
unfolding in_some
in_some-nil [] = refl
in_some-nil (h ∷ hs) = in_some-nil hs

reports-all_shifted : (n : ℕ) (fs : List Finding) → reports (all_shifted n fs) ≡ reports fs
reports-all_shifted n [] = refl
reports-all_shifted n (f ∷ fs) = ap (λ b. is_duplicate f || b) (reports-all_shifted n fs)

module _ (to : Option String) (is_word : Char → Bool) where
  reports-half_at : (r : Row) (body : List Row) → reports (half_at to is_word r body) ≡ false
  reports-half_at r body =
      reports-if (has_line (is_when_line is_word) body && has_line (is_then_line is_word) body) []
        (finding to error "scenario-missing-half" r.number ∷ []) refl refl

  reports-scenarios_from : (rs : List Row) → reports (scenarios_from to is_word rs) ≡ false
  unfolding scenarios_from
  reports-scenarios_from [] = refl
  reports-scenarios_from (r ∷ rs) =
      let half = half_at to is_word r (rows_before is_scenario rs) in
      reports-append (if is_scenario r then half else []) (scenarios_from to is_word rs)
        (reports-if (is_scenario r) half [] (reports-half_at r (rows_before is_scenario rs)) refl)
        (reports-scenarios_from rs)

  reports-size_at : (n : ℕ) (prose : List Row) → reports (size_at to is_word n prose) ≡ false
  reports-size_at n prose = elim (Bool-cases (ltb max_rules (sum_of (rules_in to is_word) prose))) [
    | inl many ↦ rw many refl
    | inr few ↦ rw few (
        reports-if (ltb max_requirement_words (sum_of (λ r. words_from false r.text) prose))
          (finding to warning "requirement-too-wordy" n ∷ []) [] refl refl)
  ]

  reports-no_scenario_at : (n : ℕ) (body : List Row) → reports (no_scenario_at to n body) ≡ false
  reports-no_scenario_at n body =
      reports-if (any is_scenario body) []
        (finding to warning "requirement-without-scenario" n ∷ []) refl refl

  reports-requirement_at :
      (seen : List String) (h : String) (n : ℕ) (body : List Row)
      → reports (requirement_at to is_word seen h n body) ≡ elem h seen
  reports-requirement_at seen h n body =
      let sizes = size_at to is_word n (prose_of body) in
      let halves = scenarios_from to is_word body in
      let others = no_scenario_at to n body ++ (sizes ++ halves) in
      let silent : reports others ≡ false =
        reports-append (no_scenario_at to n body) (sizes ++ halves) (reports-no_scenario_at n body)
          (reports-append sizes halves (reports-size_at n (prose_of body))
            (reports-scenarios_from body)) in
      any-append is_duplicate (duplicate_at to seen h n) others
      ∙ ground (arith, reports-duplicate_at to seen h n, silent)

  reports-findings_at :
      (seen : List String) (o : Option String) (n : ℕ) (rs : List Row)
      (more : List String → List Finding) (hs : List Heading)
      → ((now : List String) → reports (more now) ≡ seen_twice now (names_of hs))
      → reports (findings_at to is_word seen o n rs more)
        ≡ seen_twice seen (names_of (heading_onto o n hs))
  unfolding seen_twice
  reports-findings_at seen none n rs more hs h = h seen
  reports-findings_at seen (some x) n rs more hs h =
      any-append is_duplicate (requirement_at to is_word seen x n (body_of rs)) (more (x ∷ seen))
      ∙ ground (arith, reports-requirement_at seen x n (body_of rs), h (x ∷ seen))

  reports-check_rows :
      (seen : List String) (inside : Bool) (i : ℕ) (ls : List String)
      → reports (check_rows to is_word seen (rows_from inside i ls))
        ≡ seen_twice seen (names_of (headings_from inside i ls))
  unfolding check_rows rows_from headings_from seen_twice
  reports-check_rows seen inside i [] = refl
  reports-check_rows seen inside i (line ∷ ls) =
      let next : i + 1 ≡ suc i = omega arith in
      rw next (
        reports-findings_at seen (outside (fenced inside line) (slice_heading line)) (suc i)
          (rows_from (toggle inside line) (suc i) ls)
          (λ now. check_rows to is_word now (rows_from (toggle inside line) (suc i) ls))
          (headings_from (toggle inside line) (suc i) ls)
          (λ now. reports-check_rows now (toggle inside line) (suc i) ls))

-- The check of a living spec reports a duplicate exactly if two of the headings that
-- `_requirement_headings` gives have the same text.
pub is_duplicate-check_living_spec :
    (is_word : Char → Bool) (text : String) (to : Option String) (offset : ℕ)
    → any is_duplicate (check_living_spec is_word text to offset)
      ≡ stands_twice (names_of (requirement_headings text))
unfolding check_living_spec requirement_headings
is_duplicate-check_living_spec is_word text to offset =
    let found = check_rows to is_word [] (rows_from false 0 (splitlines text)) in
    let names = names_of (headings_from false 0 (splitlines text)) in
    let once : reports found ≡ seen_twice [] names =
      reports-check_rows to is_word [] false 0 (splitlines text) in
    any-sort_findings is_duplicate (all_shifted offset (found ++ fence_finding to text))
    ∙ reports-all_shifted offset (found ++ fence_finding to text)
    ∙ any-append is_duplicate found (fence_finding to text)
    ∙ ground (
      arith,
      once,
      seen_twice-stands_twice [] names,
      in_some-nil names,
      reports-if (fences_are_balanced text) [] (finding to warning "unbalanced-fence" 1 ∷ []) refl
          refl,
    )
