-- ===== src/Resolver/Names.antt =====
-- `_discovered_name`: a name for a spec that no capability claims.
use saga_forge.Base.{
  ℕ, zero, suc, List, [], ◌∷◌, ◌++◌, String, Option, none, some, elem, if◌then◌else◌, str_eq,
  length,
}
use saga_forge.Text.{cat, join_with, split_slashes, all_but_last, last_part, before_suffix, numeral}
use saga_forge.Resolver.Glob.{posix}

-- `"/".join(dirs[-i:])` for i = 1, 2, …
unfoldable pub widened : List String → List String
widened [] = []
widened (d ∷ ds) = widened ds ++ join_with "/" (d ∷ ds) ∷ []

unfoldable pub first_free : List String → List String → Option String
first_free taken [] = none
first_free taken (n ∷ ns) =
    let later = first_free taken ns in if elem n taken then later else some n

-- `f"{base}-{n}"`
abbrev pub numbered : String → ℕ → String
numbered base n = cat base (cat "-" (numeral n))

-- The loop `while candidate in taken`, from the candidate that has the number `n`.
unfoldable pub count_up : ℕ → String → ℕ → List String → Option String
unfolding numeral
count_up zero base n taken = none
count_up (suc fuel) base n taken =
    let later = count_up fuel base (suc n) taken in
    if elem (numbered base n) taken then later else some (numbered base n)

abbrev chop : Option String → String → String
chop none name = ""
chop (some s) name = s

abbrev or_whole : String → String → String
or_whole s whole = if str_eq s "" then whole else s

-- `"/".join(dirs) if dirs else parts[-1][: -len(".spec.md")] or parts[-1]`: at the root a spec that
-- is found ends with `.spec.md`.
abbrev pub base_name : List String → String → String
base_name [] name = or_whole (chop (before_suffix ".spec.md" name) name) name
base_name (d ∷ ds) name = join_with "/" (d ∷ ds)

abbrev pub free_or : Option String → Option String → Option String
free_or (some n) other = some n
free_or none other = other

abbrev pub base_or_count : String → List String → Option String
base_or_count base taken =
    let counted = count_up (suc (length taken)) base 2 taken in
    if elem base taken then counted else some base

unfoldable pub discovered_name : String → List String → Option String
unfolding widened first_free count_up split_slashes before_suffix posix
discovered_name rel taken =
    let parts = split_slashes (posix rel) in
    let dirs = all_but_last parts in
    free_or (first_free taken (widened dirs))
      (base_or_count (base_name dirs (last_part parts)) taken)
