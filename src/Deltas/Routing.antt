-- ===== src/Deltas/Routing.antt =====
-- `_deltas_for`: which capability a requirement of a feature spec goes to.
use saga_forge.Base.{
  true, false, List, [], ◌∷◌, String, Option, none, some, ◌≡◌, refl, sym, ap, ◌∙◌, inl, inr,
  Bool-cases, str_eq, str_eq_sym, eq_iff,
}
use saga_forge.Deltas.Parse.{Routed, Deltas, has_deltas, deltas_for, keep_units, belongs}

str_eq-apart : (a b c : String) → str_eq a b ≡ false → str_eq c a ≡ true → str_eq c b ≡ false
str_eq-apart a b c apart here = rw ((eq_iff c a).0 here) apart

-- A unit of one capability does not belong to another.
belongs-apart :
    (a b default_name : String) (cap : Option String)
    → str_eq a b ≡ false
    → belongs a (str_eq a default_name) cap ≡ true
    → belongs b (str_eq b default_name) cap ≡ false
belongs-apart a b default_name none apart here =
    str_eq_sym b default_name
    ∙ ap (λ name. str_eq name b) (sym ((eq_iff a default_name).0 here))
    ∙ apart
belongs-apart a b default_name (some cap) apart here = str_eq-apart a b cap apart here

module _ {A : Type 0} (a b default_name : String) where
  keep_units-apart :
      (us : List (Routed A))
      → str_eq a b ≡ false
      → keep_units b (str_eq b default_name) (keep_units a (str_eq a default_name) us) ≡ []
  keep_units-apart [] apart = refl
  keep_units-apart (u ∷ us) apart = elim (Bool-cases (belongs a (str_eq a default_name) u.cap)) [
    | inl here ↦
        rw (here, belongs-apart a b default_name u.cap apart here) (keep_units-apart us apart)
    | inr away ↦ rw away (keep_units-apart us apart)
  ]

-- A requirement is folded into one capability at most: of the deltas for one capability none are for
-- another, whatever the default.
pub has_deltas-deltas_for :
    (d : Deltas) (a b default_name : String)
    → str_eq a b ≡ false
    → has_deltas (deltas_for (deltas_for d a (str_eq a default_name)) b (str_eq b default_name))
      ≡ false
unfolding deltas_for
has_deltas-deltas_for d a b default_name apart =
    rw
      (
        keep_units-apart a b default_name d.additions apart,
        keep_units-apart a b default_name d.modifications apart,
        keep_units-apart a b default_name d.removals apart,
        keep_units-apart a b default_name d.renames apart,
      )
      refl
