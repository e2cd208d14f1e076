-- ===== src/Json/DictLaws.antt =====
-- What a read gives after each write to a dictionary, in the form of a test on the two keys.
use saga_forge.Base.{
  ◌⊎◌, inl, inr, Option-cases, ◌≡◌, refl, false, String, str_eq, eq_iff, eq_refl, if◌then◌else◌,
  none, some, arith,
}
use saga_forge.Json.Data.{Json, Dict, empty, entry, lookup}
use saga_forge.Json.Methods.{put, pop, set_default, get}

pub lookup-put :
    (k j : String) (v : Json) (d : Dict)
    → lookup j (put k v d) ≡ (if str_eq k j then some v else lookup j d)
unfolding put
lookup-put k j v empty = refl
lookup-put k j v (entry i w d) =
    ground (arith, eq_iff k j, eq_iff i k, eq_iff i j, lookup-put k j v d)

pub get-put :
    (k j : String) (v : Json) (d : Dict) → get j (put k v d) ≡ (if str_eq k j then v else get j d)
get-put k j v d = ground (arith, lookup-put k j v d)

pub get-put_self : (k : String) (v : Json) (d : Dict) → get k (put k v d) ≡ v
get-put_self k v d = simp (lookup-put, eq_refl)

pub lookup-pop :
    (k j : String) (d : Dict) → lookup j (pop k d) ≡ (if str_eq k j then none else lookup j d)
unfolding pop
lookup-pop k j empty = ground arith
lookup-pop k j (entry i w d) = ground (arith, eq_iff k j, eq_iff i k, eq_iff i j, lookup-pop k j d)

pub get-pop : (k j : String) (d : Dict) → str_eq k j ≡ false → get j (pop k d) ≡ get j d
get-pop k j d h = ground (arith, lookup-pop k j d)

pub lookup-set_default :
    (k j : String) (v : Json) (d : Dict)
    → str_eq k j ≡ false
    → lookup j (set_default k v d) ≡ lookup j d
unfolding set_default
lookup-set_default k j v d h = ground (arith, lookup-put k j v d)

-- The key itself is left as it is, or has the default.
pub get-set_default_self :
    (k : String) (v : Json) (d : Dict)
    → (get k (set_default k v d) ≡ get k d) ⊎ (get k (set_default k v d) ≡ v)
unfolding set_default
get-set_default_self k v d = elim (Option-cases (lookup k d)) [
  | inl new ↦ inr (rw new (get-put_self k v d))
  | inr (w, old) ↦ inl (rw (old, old))
]
