-- ===== src/Resolver/Narrowing.antt =====
-- `requirements_for_change`: a longer list of changed files reads no less.
use saga_forge.Base.{
  Bool, true, ◌||◌, List, [], ◌∷◌, ◌++◌, String, ◌≡◌, refl, ap, inl, inr, Bool-cases, any,
  any-append, keep, arith,
}
use saga_forge.Resolver.Glob.{posix, glob_matches}
use saga_forge.Resolver.Slices.{Slice, is_unmarked, touched, posix_all, requirements_for_change}

keep-keep :
    {A : Type 0} (p q : A → Bool) (xs : List A)
    → ((x : A) → p x ≡ true → q x ≡ true)
    → keep p (keep q xs) ≡ keep p xs
keep-keep p q [] imp = refl
keep-keep p q (x ∷ xs) imp = elim (Bool-cases (q x)) [
  | inl yes_q ↦ rw (yes_q, keep-keep p q xs imp) refl
  | inr no_q ↦ elim (Bool-cases (p x)) [
    | inl yes_p ↦ cc (imp x yes_p)
    | inr no_p ↦ rw (no_q, no_p) (keep-keep p q xs imp)
  ]
]

posix_all-append : (fs gs : List String) → posix_all (fs ++ gs) ≡ posix_all fs ++ posix_all gs
posix_all-append [] gs = refl
posix_all-append (f ∷ fs) gs = ap (◌∷◌ (posix f)) (posix_all-append fs gs)

any-touched :
    (globs fs gs : List String)
    → any (λ g. any (λ f. glob_matches g f) fs) globs ≡ true
    → any (λ g. any (λ f. glob_matches g f) (fs ++ gs)) globs ≡ true
any-touched [] fs gs h = h
any-touched (g ∷ globs) fs gs h =
    ground (arith, any-append (λ f. glob_matches g f) fs gs, any-touched globs fs gs)

touched-append :
    (fs gs : List String) (s : Slice)
    → (is_unmarked s || touched (posix_all fs) s) ≡ true
    → (is_unmarked s || touched (posix_all (fs ++ gs)) s) ≡ true
touched-append fs gs s h =
    rw (posix_all-append fs gs)
      (ground (arith, any-touched s.marks.touches (posix_all fs) (posix_all gs)))

-- What a change reads, it reads out of what a longer list of changed files reads.
pub requirements_for_change-append :
    (slices : List Slice) (changed more : List String)
    → requirements_for_change (requirements_for_change slices (changed ++ more)) changed
      ≡ requirements_for_change slices changed
unfolding requirements_for_change
requirements_for_change-append slices changed more =
    keep-keep _ _ slices (touched-append changed more)
