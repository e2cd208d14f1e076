-- ===== src/Deltas/Chains.antt =====
-- The inner loop of `_rename_map`: how the walk along a chain of renames ends.
use saga_forge.Base.{
  ℕ, zero, suc, ◌+◌, ◌≤◌, ◌<◌, Bool, true, false, List, [], ◌∷◌, ◌++◌, String, none, some, ◌≡◌,
  refl, ◌⊎◌, inl, inr, ◌∙◌, arith, Bool-cases, Option-cases, str_eq, eq_iff, eq_refl, elem, length,
  ◌||◌,
}
use saga_forge.Deltas.Renames.{Renames, find, Walk, ends, loops, walk, walk_from}

abbrev pub Ended : Walk → Type 0
Ended w = (w ≡ ends) ⊎ ((chain : List String) × (w ≡ loops chain))

abbrev one_if_new : Bool → ℕ
one_if_new true = 0
one_if_new false = 1

-- The keys that the chain has not come to.
abbrev unseen : List String → Renames → ℕ
unseen chain [] = 0
unseen chain ((old, new) ∷ m) = one_if_new (elem old chain) + unseen chain m

pub elem-append : (x : String) (xs ys : List String) → elem x (xs ++ ys) ≡ (elem x xs || elem x ys)
elem-append x [] ys = refl
elem-append x (y ∷ xs) ys = ground (arith, elem-append x xs ys)

unseen_less :
    (chain : List String) (x : String) (m : Renames) → unseen (chain ++ x ∷ []) m ≤ unseen chain m
unseen_less chain x [] = omega arith
unseen_less chain x ((old, new) ∷ m) =
    ground (arith, elem-append old chain (x ∷ []), unseen_less chain x m)

unseen_fewer :
    (chain : List String) (x y : String) (m : Renames)
    → find x m ≡ some y
    → elem x chain ≡ false
    → unseen (chain ++ x ∷ []) m < unseen chain m
unseen_fewer chain x y [] h new = cc
unseen_fewer chain x y ((old, to) ∷ m) h new = elim (Bool-cases (str_eq old x)) [
  | inl here ↦
      let is_x : old ≡ x = (eq_iff old x).0 here in
      let seen : elem old (chain ++ x ∷ []) ≡ true =
        elem-append old chain (x ∷ []) ∙ rw is_x (rw (new, eq_refl)) in
      let unseen_before : elem old chain ≡ false = rw is_x new in
      rw (seen, unseen_before) (omega (arith, unseen_less chain x m))
  | inr there ↦
      ground (arith, elem-append old chain (x ∷ []), unseen_fewer chain x y m (rw there at h) new)
]

unseen_all : (m : Renames) → unseen [] m ≡ length m
unseen_all [] = refl
unseen_all ((old, new) ∷ m) = omega (arith, unseen_all m)

walk_out :
    (fuel : ℕ) (m : Renames) (chain : List String) (current : String)
    → 1 ≤ fuel
    → find current m ≡ none
    → walk fuel m chain current ≡ ends
unfolding walk
walk_out zero m chain current h out = let absurd : false ≡ true = ground arith in cc
walk_out (suc fuel) m chain current h out = rw (walk, out)

-- Enough fuel for what the chain has not come to.
walk-Ended :
    (fuel : ℕ) (m : Renames) (chain : List String) (current : String)
    → unseen chain m + 2 ≤ fuel
    → Ended (walk fuel m chain current)
unfolding walk
walk-Ended zero m chain current h = let absurd : false ≡ true = ground arith in cc
walk-Ended (suc fuel) m chain current h = elim (Option-cases (find current m)) [
  | inl out ↦ inl (rw (walk, out))
  | inr (to, step) ↦ elim (Bool-cases (elem to chain)) [
    | inl met ↦ inr (chain, rw (walk, step, met))
    | inr new ↦
        rw (walk, step, new)
          (elim (Option-cases (find to m)) [
            | inl out ↦ inl (walk_out fuel m (chain ++ to ∷ []) to (omega arith) out)
            | inr (further, on) ↦
                walk-Ended fuel m (chain ++ to ∷ []) to
                  (omega (arith, unseen_fewer chain to further m on new))
          ])
  ]
]

-- The walk from a heading of the map leaves the map or meets itself, within the fuel given.
pub walk_from-Ended :
    (m : Renames) (start to : String) → find start m ≡ some to → Ended (walk_from m start)
walk_from-Ended m start to h =
    walk-Ended (suc (length m)) m (start ∷ []) start
      (omega (arith, unseen_fewer [] start to m h refl, unseen_all m))
