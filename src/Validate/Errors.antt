-- ===== src/Validate/Errors.antt =====
-- Which findings of `check_living_spec` and `check_feature_deltas` are errors.
use saga_forge.Base.{
  Bool, true, false, not, ◌&&◌, ◌||◌, List, [], ◌∷◌, String, Option, none, some, elem, str_eq,
  str_eq_sym, ◌≡◌, refl, sym, ap, ◌∙◌, inl, inr, Bool-cases, Option-cases, any, any-append,
  if◌then◌else◌, arith,
}
use saga_forge.Deltas.{Verb, added, modified, removed, renamed}
use saga_forge.Validate.{
  Finding, error, warning, finding, precedes, insert_finding, sort_findings, check_living_spec,
  Heading, Known, Block, delta_blocks, block_findings, blocks_findings, check_feature_deltas,
  is_unknown, or_default, block_text, brings_text, shape_findings, at_target, target_of,
  heading_findings, for_each, if_near, if_missing, present_in,
}
use saga_forge.Validate.BlockText.{text_of_block, text_of_block_lem}

abbrev pub is_error : Finding → Bool
is_error f = elim f.severity [ error ↦ true | warning ↦ false ]

-- The order of the findings does not matter to a search.
any-insert_finding :
    (test : Finding → Bool) (f : Finding) (fs : List Finding)
    → any test (insert_finding f fs) ≡ (test f || any test fs)
unfolding insert_finding
any-insert_finding test f [] = refl
any-insert_finding test f (g ∷ gs) = elim (Bool-cases (precedes g f)) [
  | inl before ↦ rw before (ground (arith, any-insert_finding test f gs))
  | inr behind ↦ rw behind refl
]

pub any-sort_findings :
    (test : Finding → Bool) (fs : List Finding) → any test (sort_findings fs) ≡ any test fs
unfolding sort_findings
any-sort_findings test [] = refl
any-sort_findings test (f ∷ fs) =
    any-insert_finding test f (sort_findings fs) ∙ ap (λ b. test f || b) (any-sort_findings test fs)

abbrev has_error : List Finding → Bool
has_error fs = any is_error fs

error-if :
    (b : Bool) (xs ys : List Finding)
    → has_error xs ≡ false
    → has_error ys ≡ false
    → has_error (if b then xs else ys) ≡ false
error-if true xs ys h k = h
error-if false xs ys h k = k

error-for_each :
    (f : Heading → List Finding) (hs : List Heading)
    → ((h : Heading) → has_error (f h) ≡ false)
    → has_error (for_each f hs) ≡ false
error-for_each f [] h = refl
error-for_each f (x ∷ hs) h =
    any-append is_error (f x) (for_each f hs) ∙ ground (arith, h x, error-for_each f hs h)

error-heading_findings :
    (verb : Verb) (to : Option String) (present recorded : List String) (hs : List Heading)
    → has_error (heading_findings verb to present recorded hs) ≡ false
error-heading_findings added to present recorded hs =
    error-for_each (if_near to present) hs
      (λ h. error-if _ (finding to warning _ _ ∷ []) [] refl refl)
error-heading_findings modified to present recorded hs =
    error-for_each (if_missing to present recorded) hs
      (λ h. error-if _ [] (finding to warning _ _ ∷ []) refl refl)
error-heading_findings removed to present recorded hs =
    error-for_each (if_missing to present recorded) hs
      (λ h. error-if _ [] (finding to warning _ _ ∷ []) refl refl)
error-heading_findings renamed to present recorded hs = refl

error-at_target :
    (w : Known) (to text : Option String) (b : Block) → has_error (at_target w to text b) ≡ false
error-at_target w to none b = refl
error-at_target w to (some target) b =
    error-heading_findings b.verb to (present_in target) _ b.headings

-- The verbs whose blocks bring requirements along
abbrev pub is_addition_or_change : Verb → Bool
is_addition_or_change added = true
is_addition_or_change modified = true
is_addition_or_change removed = false
is_addition_or_change renamed = false

-- The capability that a block is for: its own, or the default one.
abbrev pub capability_for : Known → Block → Option String
capability_for w b = elim b.capability [
  | none ↦ w.default_capability
  | some own ↦ if elem own ("" ∷ []) then w.default_capability else some own
]

-- The registry does not list the capability.
abbrev pub is_unlisted : Known → Option String → Bool
is_unlisted w none = false
is_unlisted w (some cap) = not (elem cap ("" ∷ w.names))

-- What makes a block an error
abbrev pub block_fails : Known → String → Block → Bool
block_fails w text b =
    let to = capability_for w b in
    is_unlisted w to
    || (is_addition_or_change b.verb
        && has_error (check_living_spec w.is_word (text_of_block text b) to b.start))

or_false : (b : Bool) → (b || false) ≡ b
or_false true = refl
or_false false = refl

is_addition_or_change_lem : (v : Verb) → brings_text v ≡ is_addition_or_change v
is_addition_or_change_lem added = refl
is_addition_or_change_lem modified = refl
is_addition_or_change_lem removed = refl
is_addition_or_change_lem renamed = refl

not_or : (a b : Bool) → (not a && not b) ≡ not (a || b)
not_or true b = refl
not_or false b = refl

is_unlisted_lem : (w : Known) (to : Option String) → is_unknown w to ≡ is_unlisted w to
is_unlisted_lem w none = refl
is_unlisted_lem w (some cap) = rw (str_eq_sym cap "") (not_or (str_eq "" cap) (elem cap w.names))

capability_for_lem :
    (w : Known) (b : Block) → or_default b.capability w.default_capability ≡ capability_for w b
capability_for_lem w b = elim (Option-cases b.capability) [
  | inl unnamed ↦ rw unnamed refl
  | inr (own, named) ↦ rw named (elim (Bool-cases (str_eq own "")) [
    | inl nameless ↦ rw (str_eq_sym "" own, nameless) refl
    | inr other ↦ rw (str_eq_sym "" own, other) refl
  ])
]

error-shape_findings :
    (w : Known) (text : String) (to : Option String) (b : Block)
    → has_error (shape_findings w text to b) ≡ (
        brings_text b.verb
        && has_error (check_living_spec w.is_word (block_text text b) to b.start))
error-shape_findings w text to b = elim (Bool-cases (brings_text b.verb)) [
  | inl brings ↦ rw brings refl
  | inr other ↦ rw other refl
]

error-block_findings :
    (w : Known) (text : String) (to : Option String) (b : Block)
    → to ≡ capability_for w b
    → has_error (block_findings w text to b) ≡ block_fails w text b
unfolding block_findings
error-block_findings w text to b is_for = elim (Bool-cases (is_unlisted w to)) [
  | inl unlisted ↦ rw (sym is_for, is_unlisted_lem w to, unlisted) refl
  | inr listed ↦
      rw (sym is_for, is_unlisted_lem w to, listed)
        (any-append is_error (shape_findings w text to b) (at_target w to (target_of w to) b)
          ∙ rw
              (
                error-shape_findings w text to b,
                error-at_target w to (target_of w to) b,
                is_addition_or_change_lem b.verb,
                text_of_block_lem text b,
              )
              (or_false _))
]

abbrev pub any_block_fails : Known → String → List Block → Bool
any_block_fails w text bs = any (block_fails w text) bs

error-blocks_findings :
    (w : Known) (text : String) (bs : List Block)
    → has_error (blocks_findings w text bs) ≡ any_block_fails w text bs
error-blocks_findings w text [] = refl
error-blocks_findings w text (b ∷ bs) =
    any-append is_error (block_findings w text (or_default b.capability w.default_capability) b)
      (blocks_findings w text bs)
    ∙ rw
        (
          error-block_findings w text (or_default b.capability w.default_capability) b
              (capability_for_lem w b),
          error-blocks_findings w text bs,
        )
        refl

-- The check of a feature spec reports an error exactly if one of its blocks is for a capability
-- (its own, or else the default one) that the registry does not list, or is an addition or a change
-- whose text, the lines from its start up to its end, has an error by the check of a living spec. What it says of
-- headings that the target has, or has not, is a warning.
pub has_error-check_feature_deltas :
    (w : Known) (text : String)
    → any is_error (check_feature_deltas w text) ≡ any_block_fails w text (delta_blocks text)
unfolding check_feature_deltas
has_error-check_feature_deltas w text =
    any-sort_findings is_error (blocks_findings w text (delta_blocks text))
    ∙ error-blocks_findings w text (delta_blocks text)
