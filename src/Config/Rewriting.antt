-- ===== src/Config/Rewriting.antt =====
-- A rewrite of the registry leaves the rest of the file alone.
use saga_forge.Base.{Bool, true, false, List, [], ◌∷◌, ◌++◌, String, ◌≡◌}
use saga_forge.Config.Splice.{is_owned, has_owned, behind_owned}

-- The first line is a key of the registry.
abbrev pub starts_owned : List String → Bool
starts_owned [] = false
starts_owned (l ∷ ls) = is_owned l

-- The lines begin with a key of the registry, and the block of their last one goes up to the end.
abbrev pub IsBlock : List String → Type 0
IsBlock ls = (starts_owned ls ≡ true) × (behind_owned ls ≡ [])

-- The second lines are the first with the owned region, a block of the registry, replaced: what stands
-- in front of it and behind it has no key of the registry and is kept.
abbrev pub Replaced : List String → List String → List String → Type 0
Replaced ls block out =
    (pre : List String) × (old : List String) × (post : List String) × (ls ≡ pre ++ old ++ post)
    × (out ≡ pre ++ block ++ post)
    × IsBlock old
    × (has_owned pre ≡ false)
    × (has_owned post ≡ false)
