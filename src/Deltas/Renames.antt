-- ===== src/Deltas/Renames.antt =====
-- `_rename_map` and `_resolve_rename`.
use saga_forge.Base.{
  ℕ, zero, suc, List, [], ◌∷◌, ◌++◌, String, Option, none, some, if◌then◌else◌, str_eq, elem,
  length,
}

-- A dictionary of headings, in order of insertion, each key once.
abbrev pub Renames : Type 0
Renames = List (String × String)

abbrev pub find : String → Renames → Option String
find h [] = none
find h ((old, new) ∷ m) = if str_eq old h then some new else find h m

abbrev pub keys : Renames → List String
keys [] = []
keys ((old, new) ∷ m) = old ∷ keys m

-- `for old, new in …: mapping.setdefault(old, new)`
abbrev or_insert : Option String → String × String → Renames → Renames
or_insert none r m = m ++ r ∷ []
or_insert (some _) r m = m

unfoldable pub first_wins : Renames → List (String × String) → Renames
first_wins m [] = m
first_wins m ((old, new) ∷ rs) = first_wins (or_insert (find old m) (old, new) m) rs

-- How the walk along a chain ends: outside of the map, on a heading of the chain, or without fuel.
pub data Walk : Type 0 where
  ends starved : Walk
  loops : List String → Walk

abbrev pub onward : Option String → List String → (String → Walk) → Walk
onward none chain go = ends
onward (some next) chain go = if elem next chain then loops chain else go next

-- The inner `while`: the chain so far, and the heading that it has come to.
unfoldable pub walk : ℕ → Renames → List String → String → Walk
walk zero m chain current = starved
walk (suc fuel) m chain current =
    onward (find current m) chain (λ next. walk fuel m (chain ++ next ∷ []) next)

-- One more step than there are keys is enough for every chain.
abbrev pub walk_from : Renames → String → Walk
walk_from m start = walk (suc (length m)) m (start ∷ []) start

abbrev pub looped : Walk → List String
looped ends = []
looped starved = []
looped (loops chain) = chain

-- The headings of all chains that come back on themselves.
unfoldable pub cyclic_from : Renames → Renames → List String
unfolding walk
cyclic_from m [] = []
cyclic_from m ((old, new) ∷ rest) = looped (walk_from m old) ++ cyclic_from m rest

abbrev pub cyclic : Renames → List String
cyclic m = cyclic_from m m

abbrev pub without : List String → Renames → Renames
without bad [] = []
without bad ((old, new) ∷ m) =
    let rest = without bad m in if elem old bad then rest else (old, new) ∷ rest

-- `_rename_map(deltas)`
unfoldable pub rename_map : List (String × String) → Renames
unfolding first_wins cyclic_from
rename_map renames = let m = first_wins [] renames in without (cyclic m) m

abbrev step_or : Option String → String → String
step_or none current = current
step_or (some next) current = next

-- `for _ in range(…)`: a heading that is not in the map stays.
unfoldable pub follow : ℕ → Renames → String → String
follow zero m current = current
follow (suc n) m current = follow n m (step_or (find current m) current)

-- `_resolve_rename`
unfoldable pub resolve_rename : String → Renames → String
unfolding follow
resolve_rename heading m = follow (suc (length m)) m heading
