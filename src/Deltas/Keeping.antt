-- ===== src/Deltas/Keeping.antt =====
-- What `_keep_marker` carries across a fold.
use saga_forge.Base.{
  Bool, true, false, not, ◌||◌, List, [], ◌∷◌, ◌++◌, String, ◌≡◌, refl, ap, ◌∙◌, inl, inr,
  Bool-cases, elem, keep, str_eq, eq_iff, arith,
}
use saga_forge.Deltas.MarkerLines.{
  keep_marker, with_globs, is_aligns, is_adopted, widened, touches_globs, touches_line,
  drop_touches,
}
use saga_forge.Deltas.Chains.{elem-append}

elem-keep :
    (test : String → Bool) (line : String) (ls : List String)
    → elem line ls ≡ true
    → test line ≡ true
    → elem line (keep test ls) ≡ true
elem-keep test line [] h t = cc
elem-keep test line (l ∷ ls) h t = elim (Bool-cases (str_eq l line)) [
  | inl here ↦
      let same : l ≡ line = (eq_iff l line).0 here in
      let passes : test l ≡ true = ap test same ∙ t in rw (passes, here) refl
  | inr later ↦
      let kept : elem line (keep test ls) ≡ true = elem-keep test line ls (rw later at h) t in
      elim (Bool-cases (test l)) [
        | inl passes ↦ rw (passes, later) kept
        | inr dropped ↦ rw dropped kept
      ]
]

elem-either :
    (line : String) (a : Bool) (xs ys : List String)
    → elem line xs ≡ true
    → (a || elem line (xs ++ ys)) ≡ true
elem-either line true xs ys h = refl
elem-either line false xs ys h = elem-append line xs ys ∙ rw h refl

elem-with_globs :
    (heading line : String) (globs aligns rest : List String)
    → elem line aligns ≡ true
    → elem line (with_globs heading globs aligns rest) ≡ true
elem-with_globs heading line [] aligns rest h = elem-either line (str_eq heading line) aligns rest h
elem-with_globs heading line (g ∷ gs) aligns rest h =
    ground
      (arith, elem-either line (str_eq (touches_line (g ∷ gs)) line) aligns (drop_touches rest) h)

-- An `aligns` line of the requirement that is replaced stands in what replaces it, whatever the
-- delta brings, unless that is empty.
pub elem-keep_marker :
    (old body : List String) (heading line : String)
    → elem line old ≡ true
    → is_aligns line ≡ true
    → elem line (keep_marker old (heading ∷ body)) ≡ true
unfolding keep_marker
elem-keep_marker old body heading line there aligned =
    elem-with_globs heading line (widened (touches_globs old) (touches_globs (heading ∷ body)))
      (keep is_aligns old) (keep (λ l. not (is_aligns l)) (keep (λ l. not (is_adopted l)) body))
      (elem-keep is_aligns line old there aligned)
