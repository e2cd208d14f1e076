-- ===== src/Resolver/Specificity.antt =====
-- The bounds of `_specificity`.
use saga_forge.Base.{
  ℕ, ◌≤◌, true, List, [], ◌∷◌, code, String, ◌≡◌, sym, ◌∙◌, inl, inr, Bool-cases, any, ◌==◌, arith,
}
use saga_forge.Text.{after_prefix}
use saga_forge.Text.Prefixes.{after, opens, opens-after_prefix}
use saga_forge.Resolver.Glob.{posix, glob_matches}
use saga_forge.Resolver.Registry.{
  Capability, matches, literal_prefix, text_length, max, reaches, score, glob_score, best_score,
  specificity,
}

length-after_prefix :
    (p f : String) → after opens (after_prefix p f) ≡ true → text_length p ≤ text_length f
unfolding after_prefix text_length
length-after_prefix String.[] f h = omega arith
length-after_prefix (String.◌∷◌ c p) String.[] h = cc
length-after_prefix (String.◌∷◌ c p) (String.◌∷◌ d f) h = elim (Bool-cases (code c == code d)) [
  | inl same ↦ omega (arith, length-after_prefix p f (rw same at h))
  | inr apart ↦ cc
]

length-reaches : (lit f : String) → reaches lit f ≡ true → text_length lit ≤ text_length f
length-reaches lit f h = length-after_prefix lit f (sym (opens-after_prefix lit f) ∙ h)

-- The longest path that a score can count, and 1 for a glob that begins with a wildcard.
abbrev pub top : String → ℕ
top f = max 1 (text_length f)

score_bounds : (lit f : String) → (1 ≤ score lit f) × (score lit f ≤ top f)
unfolding text_length
score_bounds String.[] f = ground arith
score_bounds (String.◌∷◌ c s) f = ground (arith, length-reaches (String.◌∷◌ c s) f)

best_score-keeps :
    (pats : List String) (f : String) (best : ℕ)
    → best ≤ top f
    → (best ≤ best_score pats f best) × (best_score pats f best ≤ top f)
unfolding best_score
best_score-keeps [] f best h = (omega arith, h)
best_score-keeps (pat ∷ pats) f best h =
    ground
      (arith, score_bounds (literal_prefix pat) f, best_score-keeps pats f (glob_score pat f best))

best_score-pos :
    (pats : List String) (f : String) (best : ℕ)
    → best ≤ top f
    → any (λ g. glob_matches g f) pats ≡ true
    → 1 ≤ best_score pats f best
unfolding best_score
best_score-pos [] f best h e = cc
best_score-pos (pat ∷ pats) f best h e = elim (Bool-cases (glob_matches pat f)) [
  | inl hit ↦
      ground (
        arith,
        score_bounds (literal_prefix pat) f,
        best_score-keeps pats f (glob_score pat f best),
      )
  | inr miss ↦ rw miss (best_score-pos pats f best h (rw miss at e))
]

-- A capability that a file belongs to has a specificity of one at least for it, and of the length of
-- the path at most, if that is not empty.
pub specificity_bounds :
    (cap : Capability) (f : String)
    → matches cap f ≡ true
    → (1 ≤ specificity cap f) × (specificity cap f ≤ max 1 (text_length (posix f)))
unfolding specificity matches
specificity_bounds cap f h = (
  best_score-pos cap.match_globs (posix f) 0 (omega arith) (ground arith),
  (best_score-keeps cap.match_globs (posix f) 0 (omega arith)).1,
)
