-- ===== src/Resolver/Matching.antt =====
-- `match_changed` and `_specificity`: which capabilities a change hits, and in which order.
use mathlib.Core.List.{Perm}
use mathlib.Core.List.Perm
use saga_forge.Base.{◌≤◌, Bool, true, false, List, [], ◌∷◌, String, ◌≡◌, any, keep}
use saga_forge.Resolver.Registry.{
  capability_names, lacks_spec, Capability, Answer, ok, value_error, ◌>>=◌, Hit, matches,
}

-- The more specific comes first.
abbrev pub Ranked : List Hit → Type 0
Ranked [] = Unit {0}
Ranked (h ∷ []) = Unit {0}
Ranked (h ∷ k ∷ ks) = (k.specificity ≤ h.specificity) × Ranked (k ∷ ks)

-- `h` is no less specific than the first.
abbrev Leads : Hit → List Hit → Type 0
Leads h [] = Unit {0}
Leads h (k ∷ ks) = k.specificity ≤ h.specificity

abbrev pub hit_names : List Hit → List String
hit_names [] = []
hit_names (h ∷ hs) = h.entry.name ∷ hit_names hs

abbrev is_nil : List String → Bool
is_nil [] = true
is_nil (_ ∷ _) = false

-- The capabilities that one of the files belongs to.
abbrev pub claiming : List String → List Capability → List Capability
claiming files caps = keep (λ c. any (matches c) files) caps

-- The hits before they are sorted.
abbrev Hits : List Capability → Answer (List Hit) → Type 0
Hits caps value_error = lacks_spec caps ≡ true
Hits caps (ok hits) = (lacks_spec caps ≡ false) × (hit_names hits ≡ capability_names caps)

-- What `match_changed` answers for the capabilities that claim a file: an error if one of them has no
-- spec path, else each of them once, the more specific first.
abbrev pub Ranks : List Capability → Answer (List Hit) → Type 0
Ranks caps value_error = lacks_spec caps ≡ true
Ranks caps (ok hits) =
    (lacks_spec caps ≡ false) × Ranked hits × Perm (hit_names hits) (capability_names caps)
