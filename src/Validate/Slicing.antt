-- ===== src/Validate/Slicing.antt =====
-- The resolver's slices and the checker's headings name the same requirements.
use saga_forge.Base.{
  ℕ, zero, suc, ◌+◌, ◌≤◌, Bool, true, false, List, [], ◌∷◌, String, Option, none, some, is_some,
  length, ◌≡◌, refl, sym, ap, ◌∙◌, inl, inr, Bool-cases, Option-cases, ◌⊎◌, arith,
}
use saga_forge.Text.{splitlines, after_prefix, after_spaces, and_then}
use saga_forge.Deltas.{toggle, fenced}
use saga_forge.Resolver.{
  slice_heading, ends_slice, outside, title_of, Split, split_step, split_slice, Slice, slice,
  slices_from, requirement_slices,
}
use saga_forge.Validate.Headings.{Heading, heading_onto, headings_from, requirement_headings}

-- The headings alone
abbrev text_onto : Option String → List String → List String
text_onto none hs = hs
text_onto (some h) hs = h ∷ hs

titles_from : Bool → List String → List String
titles_from inside [] = []
titles_from inside (line ∷ ls) =
    text_onto (outside (fenced inside line) (slice_heading line))
      (titles_from (toggle inside line) ls)

is_some-and_then :
    {A : Type 0} (o : Option String) (k : String → Option A) (h : A)
    → and_then o k ≡ some h
    → is_some o ≡ true
is_some-and_then none k h e = cc
is_some-and_then (some t) k h e = refl

is_some-first :
    (o : Option String) (f : String → Option String) (k : String → String → Option String)
    (h : String)
    → and_then o (λ t. and_then (f t) (k t)) ≡ some h
    → is_some (and_then o f) ≡ true
is_some-first none f k h e = cc
is_some-first (some t) f k h e = is_some-and_then (f t) (k t) h e

-- A requirement's heading ends the slice before it.
ends_slice-slice_heading : (line h : String) → slice_heading line ≡ some h → ends_slice line ≡ true
unfolding slice_heading ends_slice
ends_slice-slice_heading line h e =
    rw (is_some-first (after_prefix "###" line) after_spaces title_of h e) refl

no_heading :
    (line : String)
    → ends_slice line ≡ false
    → (slice_heading line ≡ none) ⊎ ((h : String) × (slice_heading line ≡ some h))
    → slice_heading line ≡ none
no_heading line goes_on (inl e) = e
no_heading line goes_on (inr (h, e)) = cc (ends_slice-slice_heading line h e)

titles-split :
    (inside : Bool) (line : String) (ls : List String) (s : Split)
    → (slice_heading line ≡ none) ⊎ ((h : String) × (slice_heading line ≡ some h))
    → titles_from s.inside s.rest ≡ titles_from (toggle inside line) ls
    → titles_from (split_step inside line ls s).inside (split_step inside line ls s).rest
      ≡ text_onto
          (outside (fenced inside line) (slice_heading line))
          (titles_from (toggle inside line) ls)
unfolding titles_from
titles-split inside line ls s found h = elim (Bool-cases (fenced inside line)) [
  | inl within ↦ rw within h
  | inr out ↦ elim (Bool-cases (ends_slice line)) [
    | inl ends ↦ rw (out, ends) (rw out refl)
    | inr goes_on ↦ rw (out, goes_on) (rw (no_heading line goes_on found) h)
  ]
]

titles_from-split :
    (inside : Bool) (ls : List String)
    → titles_from (split_slice inside ls).inside (split_slice inside ls).rest
      ≡ titles_from inside ls
unfolding titles_from split_slice
titles_from-split inside [] = refl
titles_from-split inside (line ∷ ls) =
    titles-split inside line ls (split_slice (toggle inside line) ls)
      (Option-cases (slice_heading line)) (titles_from-split (toggle inside line) ls)

length-split : (inside : Bool) (ls : List String) → length (split_slice inside ls).rest ≤ length ls
unfolding split_slice
length-split inside [] = omega arith
length-split inside (line ∷ ls) = ground (arith, length-split (toggle inside line) ls)

abbrev pub slice_titles : List Slice → List String
slice_titles [] = []
slice_titles (s ∷ ss) = s.heading ∷ slice_titles ss

slice_titles-step :
    (o : Option String) (body titles : List String) (skipped later : List Slice)
    → slice_titles skipped ≡ titles
    → slice_titles later ≡ titles
    → slice_titles (elim o [ none ↦ skipped | some heading ↦ slice heading body ∷ later ])
      ≡ text_onto o titles
slice_titles-step none body titles skipped later x y = x
slice_titles-step (some h) body titles skipped later x y = ap (◌∷◌ h) y

slice_titles-slices_from :
    (fuel : ℕ) (inside : Bool) (ls : List String)
    → length ls ≤ fuel
    → slice_titles (slices_from fuel inside ls) ≡ titles_from inside ls
unfolding slices_from titles_from
slice_titles-slices_from fuel inside [] h = refl
slice_titles-slices_from zero inside (line ∷ ls) h = absurd (omega arith)
slice_titles-slices_from (suc fuel) inside (line ∷ ls) h =
    let s = split_slice (toggle inside line) ls in
    slice_titles-step (outside (fenced inside line) (slice_heading line)) s.body
      (titles_from (toggle inside line) ls) (slices_from fuel (toggle inside line) ls)
      (slices_from fuel s.inside s.rest)
      (slice_titles-slices_from fuel (toggle inside line) ls (omega arith))
      (slice_titles-slices_from fuel s.inside s.rest
          (omega (arith, length-split (toggle inside line) ls))
        ∙ titles_from-split (toggle inside line) ls)

abbrev pub heading_titles : List Heading → List String
heading_titles [] = []
heading_titles (h ∷ hs) = h.heading ∷ heading_titles hs

heading_titles-onto :
    (o : Option String) (line : ℕ) (hs : List Heading)
    → heading_titles (heading_onto o line hs) ≡ text_onto o (heading_titles hs)
heading_titles-onto none line hs = refl
heading_titles-onto (some h) line hs = refl

heading_titles-headings_from :
    (inside : Bool) (i : ℕ) (ls : List String)
    → heading_titles (headings_from inside i ls) ≡ titles_from inside ls
unfolding headings_from titles_from
heading_titles-headings_from inside i [] = refl
heading_titles-headings_from inside i (line ∷ ls) =
    heading_titles-onto (outside (fenced inside line) (slice_heading line)) (i + 1)
      (headings_from (toggle inside line) (i + 1) ls)
    ∙ ap (text_onto _) (heading_titles-headings_from (toggle inside line) (i + 1) ls)

-- `requirement_slices` has one slice for each heading of `_requirement_headings`, in the same order:
-- its jump to the end of a requirement passes over none, and the lines suffice as fuel.
pub slice_titles-requirement_slices :
    (text : String)
    → slice_titles (requirement_slices text) ≡ heading_titles (requirement_headings text)
unfolding requirement_slices requirement_headings
slice_titles-requirement_slices text =
    slice_titles-slices_from (length (splitlines text)) false (splitlines text) (omega arith)
    ∙ sym (heading_titles-headings_from false 0 (splitlines text))
