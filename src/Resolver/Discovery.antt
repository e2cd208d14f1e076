-- ===== src/Resolver/Discovery.antt =====
-- The scan for living specs below a root, and `discover_all`: the capabilities of the registry and
-- the specs that none of them claims.
use saga_forge.Base.{
  Bool, true, false, not, ◌&&◌, ◌||◌, List, [], ◌∷◌, ◌++◌, String, Option, none, some, elem, any,
  keep, map, if◌then◌else◌, str_eq,
}
use saga_forge.Text.{cat, starts, ends, before_suffix, split_slashes, normpath, dirname, str_lt}
use saga_forge.Resolver.Glob.{posix}
use saga_forge.Resolver.Registry.{
  Capability, Repo, Answer, ok, ◌>>=◌, resolve_spec, Entry, entry_of, centralized, colocated,
  tier_paths,
}
use saga_forge.Resolver.Names.{discovered_name}

-- A folder: its files, and its folders with what they hold.
pub data Tree : Type 0 where
  leaf : Tree
  file : String → Tree → Tree
  folder : String → Tree → Tree → Tree

unfoldable pub has_file : String → Tree → Bool
has_file name leaf = false
has_file name (file n t) = str_eq n name || has_file name t
has_file name (folder n sub t) = has_file name t

-- A file in the subfolder `.specify`
unfoldable pub has_config : String → Tree → Bool
unfolding has_file
has_config name leaf = false
has_config name (file n t) = has_config name t
has_config name (folder n sub t) = (str_eq n ".specify" && has_file name sub) || has_config name t

-- `is_project_root`, where every folder can be read
abbrev pub is_project_root : Tree → Bool
is_project_root t = has_file "living-specs.yml" t || has_config "companion.yml" t

-- The folders that the walk prunes.
abbrev pub is_pruned : String → Tree → Bool
is_pruned name sub = starts name "." || str_eq name "node_modules" || is_project_root sub

abbrev three : List String → Bool
three (a ∷ b ∷ c ∷ []) = str_eq a "capabilities" && str_eq c "spec.md"
three _ = false

-- `is_central_spec`
unfoldable pub is_central_spec : String → Bool
unfolding split_slashes posix
is_central_spec rel = three (split_slashes (posix rel))

abbrev pub is_candidate : String → String → Bool
is_candidate name rel = not (starts name ".") && (ends name ".spec.md" || is_central_spec rel)

abbrev pub below_path : String → String → String
below_path pre name = if str_eq pre "" then name else cat pre (cat "/" name)

abbrev add_if : Bool → String → List String → List String
add_if true rel found = rel ∷ found
add_if false rel found = found

-- The walk, with the path of the folder from the root
unfoldable pub walk_tree : String → Tree → List String
unfolding has_file has_config is_central_spec
walk_tree pre leaf = []
walk_tree pre (file name t) =
    add_if (is_candidate name (below_path pre name)) (below_path pre name) (walk_tree pre t)
walk_tree pre (folder name sub t) =
    let inside = walk_tree (below_path pre name) sub in
    if is_pruned name sub then walk_tree pre t else inside ++ walk_tree pre t

unfoldable pub insert_text : String → List String → List String
insert_text s [] = s ∷ []
insert_text s (t ∷ ts) =
    let later = t ∷ insert_text s ts in if str_lt t s then later else s ∷ t ∷ ts

-- `sorted` of texts
unfoldable pub sort_texts : List String → List String
unfolding insert_text
sort_texts [] = []
sort_texts (s ∷ ss) = insert_text s (sort_texts ss)

-- `find_spec_files`
unfoldable pub find_spec_files : Tree → List String
unfolding walk_tree sort_texts
find_spec_files root = sort_texts (walk_tree "" root)

-- `{os.path.normpath(_resolve_spec(c)) for c in …}`
unfoldable pub claimed_specs : List Capability → Answer (List String)
unfolding normpath
claimed_specs [] = ok []
claimed_specs (c ∷ cs) = do
  spec ← resolve_spec c
  later ← claimed_specs cs
  ok (normpath spec ∷ later)

abbrev dir_onto : String → List String → List String
dir_onto d ds = if str_eq d "" then ds else d ∷ ds

abbrev pub owned_dirs : List String → List String
owned_dirs [] = []
owned_dirs (c ∷ cs) = dir_onto (dirname c) (owned_dirs cs)

abbrev first_part : List String → String
first_part [] = ""
first_part (p ∷ ps) = p

abbrev pub is_tier : String → Bool
is_tier rel = ends rel ".rules.md" || ends rel ".coverage.md" || ends rel ".arch.md"

-- The four tests of the loop of `find_orphans`
unfoldable pub is_orphan : List String → String → Bool
unfolding before_suffix split_slashes dirname
is_orphan claimed rel =
    not (str_eq (first_part (split_slashes rel)) "specs")
    && not (is_tier rel)
    && not (elem rel claimed)
    && not (any (λ d. str_eq rel d || starts rel (cat d "/")) (owned_dirs claimed))

-- `find_orphans`
unfoldable pub find_orphans : List Capability → Tree → Answer (List String)
unfolding claimed_specs find_spec_files is_orphan posix sort_texts
find_orphans caps root = do
  claimed ← claimed_specs caps
  ok (sort_texts (map posix (keep (is_orphan claimed) (find_spec_files root))))

unfoldable pub entries_of : Repo → List Capability → Answer (List Entry)
unfolding entry_of
entries_of repo [] = ok []
entries_of repo (c ∷ cs) = do e ← entry_of repo c; es ← entries_of repo cs; ok (e ∷ es)

abbrev pub names_of : List Entry → List String
names_of [] = []
names_of (e ∷ es) = e.name ∷ names_of es

abbrev pub norm_specs : List Entry → List String
norm_specs [] = []
norm_specs (e ∷ es) = normpath e.spec ∷ norm_specs es

-- The entry of a spec that is found: it carries no `retire`, which reads as false.
abbrev pub found_entry : Repo → String → String → Entry
found_entry repo name norm = record {
  name = name;
  spec = posix norm;
  location = if is_central_spec norm then centralized else colocated;
  exists = true;
  tiers = tier_paths repo (posix norm);
  retire = false;
}

abbrev pub named : Option String → (String → Option (List Entry)) → Option (List Entry)
named none k = none
named (some name) k = k name

abbrev pub onto : Entry → Option (List Entry) → Option (List Entry)
onto e none = none
onto e (some es) = some (e ∷ es)

-- The loop over the orphans: `seen` are the paths, `names` the names that are taken.
unfoldable pub discover_from : Repo → List String → List String → List String → Option (List Entry)
unfolding normpath discovered_name is_central_spec tier_paths posix
discover_from repo seen names [] = some []
discover_from repo seen names (rel ∷ rels) =
    let norm = normpath rel in
    let skipped = discover_from repo seen names rels in
    let added = named (discovered_name norm names) (λ name.
      onto (found_entry repo name norm) (discover_from repo (norm ∷ seen) (name ∷ names) rels)) in
    if elem norm seen then skipped else added

unfoldable pub insert_entry : Entry → List Entry → List Entry
insert_entry e [] = e ∷ []
insert_entry e (k ∷ ks) =
    let later = k ∷ insert_entry e ks in if str_lt k.name e.name then later else e ∷ k ∷ ks

-- `out.sort(key=lambda e: e["name"])`
unfoldable pub sort_entries : List Entry → List Entry
unfolding insert_entry
sort_entries [] = []
sort_entries (e ∷ es) = insert_entry e (sort_entries es)

abbrev pub joined : List Entry → Option (List Entry) → Option (List Entry)
joined es none = none
joined es (some fs) = some (sort_entries (es ++ fs))

-- `discover_all`. `None` would be a name that is not found; see Resolver/Naming.
unfoldable pub discover_all : Repo → List Capability → Tree → Answer (Option (List Entry))
unfolding entries_of find_orphans discover_from sort_entries normpath
discover_all repo caps root = do
  es ← entries_of repo caps
  orphans ← find_orphans caps root
  ok (joined es (discover_from repo (norm_specs es) (names_of es) orphans))
