-- ===== src/Resolver/Registry.antt =====
-- The capabilities of the registry as the resolver reads them: membership, specificity, and the
-- entry of a capability with its tiers.
use saga_forge.Base.{
  ℕ, suc, Bool, true, false, not, ◌&&◌, ◌||◌, List, [], ◌∷◌, Char, String, Option, none, some, ltb,
  ◌==◌, if◌then◌else◌, str_eq, any, keep,
}
use saga_forge.Text.{is, cat, starts, before_suffix, rstrip_slashes, str_lt}
use saga_forge.Resolver.Glob.{posix, glob_matches}

-- An entry of `living["capabilities"]`.
pub record Capability : Type 0 where
  pub name : String
  pub match_globs : List String
  pub exclude : List String
  pub spec : String
  pub spec_defaulted : Bool
  pub retire : Bool

abbrev pub capability_names : List Capability → List String
capability_names [] = []
capability_names (c ∷ cs) = c.name ∷ capability_names cs

-- A capability has no spec path.
abbrev pub lacks_spec : List Capability → Bool
lacks_spec [] = false
lacks_spec (c ∷ cs) = str_eq c.spec "" || lacks_spec cs

-- `os.path.isfile` and `open(…).read()` below the root: `None` stands for an `OSError`.
pub record Repo : Type 0 where
  pub is_file : String → Bool
  pub read : String → Option String

-- A value, or the `ValueError` of a capability without a spec path.
pub data Answer {ℓ} (A : Type ℓ) : Type ℓ where
  ok : A → Answer A
  value_error : Answer A

infixl 5 ◌>>=◌
abbrev pub ◌>>=◌ {ℓ κ} : {A : Type ℓ} {B : Type κ} → Answer A → (A → Answer B) → Answer B
ok a >>= f = f a
value_error >>= f = value_error

-- `matches`
unfoldable pub matches : Capability → String → Bool
unfolding glob_matches posix
matches cap f =
    if any (λ g. glob_matches g (posix f)) cap.exclude
    then false
    else any (λ g. glob_matches g (posix f)) cap.match_globs

abbrev is_wild : Char → Bool
is_wild c = is c b'*' || is c b'?' || is c b'['

until_wild : String → String
until_wild String.[] = String.[]
until_wild (String.◌∷◌ c s) =
    let more = String.◌∷◌ c (until_wild s) in if is_wild c then String.[] else more

-- `_literal_prefix`
unfoldable pub literal_prefix : String → String
unfolding until_wild rstrip_slashes
literal_prefix pat = rstrip_slashes (until_wild pat)

-- `len(s)`
unfoldable pub text_length : String → ℕ
text_length String.[] = 0
text_length (String.◌∷◌ c s) = suc (text_length s)

abbrev pub max : ℕ → ℕ → ℕ
max a b = if ltb a b then b else a

-- `f == lit or f.startswith(lit + "/")`
abbrev pub reaches : String → String → Bool
reaches lit f = str_eq f lit || starts f (cat lit "/")

-- What one matching glob counts.
abbrev pub score : String → String → ℕ
score lit f = if not (str_eq lit "") && reaches lit f then text_length lit else 1

abbrev pub glob_score : String → String → ℕ → ℕ
glob_score pat f best = if glob_matches pat f then max best (score (literal_prefix pat) f) else best

-- The loop of `_specificity`
unfoldable pub best_score : List String → String → ℕ → ℕ
unfolding glob_matches literal_prefix text_length
best_score [] f best = best
best_score (pat ∷ pats) f best = best_score pats f (glob_score pat f best)

unfoldable pub specificity : Capability → String → ℕ
unfolding best_score posix
specificity cap f = best_score cap.match_globs (posix f) 0

pub data Location : Type 0 where
  centralized colocated : Location

-- `_location`
abbrev pub location : Capability → Location
location cap = if starts (posix cap.spec) "capabilities/" then centralized else colocated

-- `_resolve_spec`
abbrev pub resolve_spec : Capability → Answer String
resolve_spec cap = if str_eq cap.spec "" then value_error else ok cap.spec

pub record Tier : Type 0 where
  pub path : String
  pub exists : Bool

pub record Tiers : Type 0 where
  pub rules : Tier
  pub coverage : Tier

abbrev or_else : Option String → Option String → String → String
or_else (some s) o d = s
or_else none (some s) d = s
or_else none none d = d

-- The spec's path without `.spec.md`, or without `.md`.
unfoldable pub tier_base : String → String
unfolding before_suffix posix
tier_base spec =
    let p = posix spec in or_else (before_suffix ".spec.md" p) (before_suffix ".md" p) p

-- `tier_paths`: the rules tier falls back to the name it had before.
unfoldable pub tier_paths : Repo → String → Tiers
unfolding tier_base
tier_paths repo spec =
    let base = tier_base spec in
    let rules = cat base ".rules.md" in
    let legacy = cat base ".arch.md" in
    let coverage = cat base ".coverage.md" in
    record {
      rules =
          if not (repo.is_file rules) && repo.is_file legacy
          then record { path = legacy; exists = true }
          else record { path = rules; exists = repo.is_file rules };
      coverage = record { path = coverage; exists = repo.is_file coverage };
    }

pub record Entry : Type 0 where
  pub name : String
  pub spec : String
  pub location : Location
  pub exists : Bool
  pub tiers : Tiers
  pub retire : Bool

-- `_entry`
unfoldable pub entry_of : Repo → Capability → Answer Entry
unfolding tier_paths posix
entry_of repo cap = do
  spec ← resolve_spec cap
  ok (record {
    name = cap.name;
    spec = spec;
    location = location cap;
    exists = repo.is_file spec;
    tiers = tier_paths repo spec;
    retire = cap.retire;
  })

-- An entry that a changed file hit.
pub record Hit : Type 0 where
  pub entry : Entry
  pub specificity : ℕ

-- The most specific of the hit files.
unfoldable pub top_score : Capability → List String → ℕ
unfolding specificity
top_score cap [] = 0
top_score cap (f ∷ fs) = max (specificity cap f) (top_score cap fs)

abbrev pub hit_files : Capability → List String → List String
hit_files cap files = keep (matches cap) files

abbrev pub hit_or_skip : Repo → Capability → List String → Answer (List Hit) → Answer (List Hit)
hit_or_skip repo cap [] later = later
hit_or_skip repo cap (f ∷ fs) later = do
  entry ← entry_of repo cap
  hits ← later
  ok (record { entry = entry; specificity = top_score cap (f ∷ fs) } ∷ hits)

-- The loop of `match_changed`, in the order of the registry
unfoldable pub hits_of : Repo → List String → List Capability → Answer (List Hit)
unfolding matches entry_of top_score
hits_of repo files [] = ok []
hits_of repo files (cap ∷ caps) =
    hit_or_skip repo cap (hit_files cap files) (hits_of repo files caps)

-- The key `(-specificity, name)` of `a` is less than that of `b`.
abbrev pub comes_before : Hit → Hit → Bool
comes_before a b =
    ltb b.specificity a.specificity
    || (b.specificity == a.specificity && str_lt a.entry.name b.entry.name)

-- A stable sort, one element at a time.
unfoldable pub insert_hit : Hit → List Hit → List Hit
insert_hit h [] = h ∷ []
insert_hit h (k ∷ ks) =
    let later = k ∷ insert_hit h ks in if comes_before k h then later else h ∷ k ∷ ks

unfoldable pub sort_hits : List Hit → List Hit
unfolding insert_hit
sort_hits [] = []
sort_hits (h ∷ hs) = insert_hit h (sort_hits hs)

-- `match_changed`
unfoldable pub match_changed : Repo → List String → List Capability → Answer (List Hit)
unfolding hits_of sort_hits
match_changed repo files caps = do hits ← hits_of repo files caps; ok (sort_hits hits)
