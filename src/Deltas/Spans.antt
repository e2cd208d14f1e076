-- ===== src/Deltas/Spans.antt =====
-- `_living_requirement_span` against a description of it by the lines before, of and behind.
use saga_forge.Base.{
  Bool, true, false, ◌||◌, List, [], ◌∷◌, ◌++◌, String, Option, none, some, ◌≡◌, refl, ap, inl, inr,
  Bool-cases,
}
use saga_forge.Text.{strip}
use saga_forge.Deltas.Sections.{
  Span, is_hit, is_end, toggle, split_end, span_from, requirement_span, behind_line, inside_after,
}

split_end-join :
    (inside : Bool) (ls : List String) → (split_end inside ls).0 ++ (split_end inside ls).1 ≡ ls
unfolding split_end
split_end-join inside [] = refl
split_end-join inside (line ∷ ls) = elim (Bool-cases (is_end inside line)) [
  | inl last ↦ rw last
  | inr on ↦ rw on (ap (λ x. line ∷ x) (split_end-join (toggle inside line) ls))
]

-- A line of that heading outside of every fence.
abbrev pub hits : Bool → String → List String → Bool
hits inside h [] = false
hits inside h (line ∷ ls) = is_hit inside h line || hits (toggle inside line) h ls

-- A line ends a requirement, outside of every fence.
abbrev pub ends_within : Bool → List String → Bool
ends_within inside [] = false
ends_within inside (line ∷ ls) = is_end inside line || ends_within (toggle inside line) ls

-- The lines are over, or the first ends a requirement.
abbrev pub ends_here : Bool → List String → Bool
ends_here inside [] = true
ends_here inside (line ∷ ls) = is_end inside line

-- The section is a heading that is asked for, and a body up to the first line that ends it.
abbrev pub IsSection : Bool → String → List String → List String → Type 0
IsSection inside h [] after = ⊥
IsSection inside h (line ∷ body) after =
    (is_hit inside h line ≡ true)
    × (ends_within false body ≡ false)
    × (ends_here (inside_after false body) after ≡ true)

-- What a span is of its lines.
abbrev pub IsSpan : Bool → String → List String → Option Span → Type 0
IsSpan inside h ls none = hits inside h ls ≡ false
IsSpan inside h ls (some s) =
    (s.before ++ s.section ++ s.after ≡ ls)
    × (hits inside h s.before ≡ false)
    × (hits inside h ls ≡ true)
    × IsSection (inside_after inside s.before) h s.section s.after

split_end-ends :
    (inside : Bool) (ls : List String)
    → (ends_within inside (split_end inside ls).0 ≡ false)
      × (ends_here (inside_after inside (split_end inside ls).0) (split_end inside ls).1 ≡ true)
unfolding split_end inside_after
split_end-ends inside [] = (refl, refl)
split_end-ends inside (line ∷ ls) = elim (Bool-cases (is_end inside line)) [
  | inl last ↦ rw last (refl, last)
  | inr on ↦
      let (within, here) = split_end-ends (toggle inside line) ls in rw on (rw on within, here)
]

behind-IsSpan :
    (inside : Bool) (h line : String) (ls : List String) (o : Option Span)
    → is_hit inside h line ≡ false
    → IsSpan (toggle inside line) h ls o
    → IsSpan inside h (line ∷ ls) (behind_line line o)
unfolding inside_after
behind-IsSpan inside h line ls none miss p = rw miss p
behind-IsSpan inside h line ls (some s) miss (whole, early, there, section) =
    (ap (λ x. line ∷ x) whole, rw miss early, rw miss there, section)

span_from-IsSpan :
    (inside : Bool) (h : String) (ls : List String) → IsSpan inside h ls (span_from inside h ls)
unfolding span_from inside_after
span_from-IsSpan inside h [] = refl
span_from-IsSpan inside h (line ∷ ls) = elim (Bool-cases (is_hit inside h line)) [
  | inl hit ↦ rw hit (
    ap (λ x. line ∷ x) (split_end-join false ls),
    refl,
    rw hit refl,
    (hit, (split_end-ends false ls).0, (split_end-ends false ls).1),
  )
  | inr miss ↦
      rw miss (behind-IsSpan inside h line ls _ miss (span_from-IsSpan (toggle inside line) h ls))
]

-- The span of a requirement is none if no line outside of the fences is its heading. Otherwise the
-- part before it, its section and the part behind it are the lines again; no line before the section,
-- outside of the fences, is the heading; the section begins with it; and its body goes up to the
-- first line, outside of the fences, that begins a requirement or a section, or up to the end.
pub requirement_span-IsSpan :
    (ls : List String) (heading : String)
    → IsSpan false (strip heading) ls (requirement_span ls heading)
requirement_span-IsSpan ls heading = span_from-IsSpan false (strip heading) ls
