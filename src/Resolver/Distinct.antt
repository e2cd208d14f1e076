-- ===== src/Resolver/Distinct.antt =====
-- The names of `discover_all`: each once, and those of the registry among them.
use saga_forge.Base.{
  Bool, true, false, not, ◌&&◌, ◌||◌, List, [], ◌∷◌, ◌++◌, String, Option, none, some, ◌≡◌, refl,
  ap, ◌∙◌, inl, inr, Bool-cases, elem, str_eq, str_eq_sym, eq_iff, eq_refl, arith,
}
use saga_forge.Text.{normpath}
use saga_forge.Resolver.Registry.{
  capability_names, lacks_spec, Capability, Repo, Answer, ok, value_error, ◌>>=◌, Entry, entry_of,
}
use saga_forge.Resolver.Names.{discovered_name}
use saga_forge.Resolver.Naming.{IsFree, discovered_name-IsFree}
use saga_forge.Resolver.Discovery.{
  Tree, names_of, found_entry, discover_from, named, onto, insert_entry, sort_entries, joined,
  entries_of, find_orphans, claimed_specs, norm_specs, discover_all,
}

-- No text stands in the list twice.
unfoldable pub distinct : List String → Bool
distinct [] = true
distinct (s ∷ ss) = not (elem s ss) && distinct ss

elem-insert_entry :
    (e : Entry) (es : List Entry) (s : String)
    → elem s (names_of (insert_entry e es)) ≡ (str_eq e.name s || elem s (names_of es))
unfolding insert_entry
elem-insert_entry e [] s = refl
elem-insert_entry e (k ∷ ks) s = ground (arith, elem-insert_entry e ks s)

distinct-insert_entry :
    (e : Entry) (es : List Entry)
    → distinct (names_of (insert_entry e es))
      ≡ (not (elem e.name (names_of es)) && distinct (names_of es))
unfolding insert_entry distinct
distinct-insert_entry e [] = refl
distinct-insert_entry e (k ∷ ks) =
    ground
      (arith, distinct-insert_entry e ks, elem-insert_entry e ks k.name, str_eq_sym e.name k.name)

elem-sort_entries :
    (es : List Entry) (s : String) → elem s (names_of (sort_entries es)) ≡ elem s (names_of es)
unfolding sort_entries
elem-sort_entries [] s = refl
elem-sort_entries (e ∷ es) s =
    elem-insert_entry e (sort_entries es) s ∙ rw (elem-sort_entries es s) refl

distinct-sort_entries :
    (es : List Entry) → distinct (names_of (sort_entries es)) ≡ distinct (names_of es)
unfolding sort_entries distinct
distinct-sort_entries [] = refl
distinct-sort_entries (e ∷ es) =
    distinct-insert_entry e (sort_entries es)
    ∙ rw (elem-sort_entries es e.name, distinct-sort_entries es) refl

-- The two lists share no text.
abbrev Apart : List String → List String → Type 0
Apart names others = (s : String) → elem s names ≡ true → elem s others ≡ false

elem-names_of-append :
    (es fs : List Entry) (s : String)
    → elem s (names_of (es ++ fs)) ≡ (elem s (names_of es) || elem s (names_of fs))
elem-names_of-append [] fs s = refl
elem-names_of-append (e ∷ es) fs s = ground (arith, elem-names_of-append es fs s)

distinct-append :
    (es fs : List Entry)
    → distinct (names_of es) ≡ true
    → distinct (names_of fs) ≡ true
    → Apart (names_of es) (names_of fs)
    → distinct (names_of (es ++ fs)) ≡ true
unfolding distinct
distinct-append [] fs d k apart = k
distinct-append (e ∷ es) fs d k apart =
    let unowned : elem e.name (names_of fs) ≡ false = apart e.name (rw eq_refl refl) in
    let rest : distinct (names_of (es ++ fs)) ≡ true =
      distinct-append es fs (ground arith) k (λ s h. apart s (ground arith)) in
    ground (arith, elem-names_of-append es fs e.name)

-- What the loop over the orphans adds.
abbrev Adds : List String → Option (List Entry) → Type 0
Adds names none = ⊥
Adds names (some fs) = (distinct (names_of fs) ≡ true) × Apart names (names_of fs)

other_name :
    (a b : String) (names : List String)
    → elem a names ≡ false
    → elem b names ≡ true
    → str_eq a b ≡ false
other_name a b names out within = elim (Bool-cases (str_eq a b)) [
  | inl same ↦ cc (ap (λ t. elem t names) ((eq_iff a b).0 same))
  | inr apart ↦ apart
]

Adds-onto :
    (names : List String) (e : Entry) (r : Option (List Entry))
    → elem e.name names ≡ false
    → Adds (e.name ∷ names) r
    → Adds names (onto e r)
unfolding distinct
Adds-onto names e none free h = h
Adds-onto names e (some fs) free (d, apart) =
    let unowned : elem e.name (names_of fs) ≡ false = apart e.name (rw eq_refl refl) in
    (ground arith, λ s h. rw (other_name e.name s names free h) (apart s (rw h (ground arith))))

Adds-named :
    (names : List String) (r : Option String) (k : String → Option (List Entry))
    → IsFree names r
    → ((name : String) → elem name names ≡ false → Adds names (k name))
    → Adds names (named r k)
Adds-named names none k free h = free
Adds-named names (some name) k free h = h name free

discover_from-Adds :
    (repo : Repo) (seen names rels : List String) → Adds names (discover_from repo seen names rels)
unfolding discover_from distinct
discover_from-Adds repo seen names [] = (refl, λ s h. refl)
discover_from-Adds repo seen names (rel ∷ rels) = elim (Bool-cases (elem (normpath rel) seen)) [
  | inl old ↦ rw old (discover_from-Adds repo seen names rels)
  | inr new ↦ rw new (
      Adds-named names (discovered_name (normpath rel) names) _
        (discovered_name-IsFree (normpath rel) names)
        (λ name free.
          Adds-onto names (found_entry repo name (normpath rel))
            (discover_from repo (normpath rel ∷ seen) (name ∷ names) rels) free
            (discover_from-Adds repo (normpath rel ∷ seen) (name ∷ names) rels)))
]

-- A capability without a spec path is a `ValueError`; else the call ends in entries with distinct
-- names, those of the registry among them.
abbrev pub Lists : List Capability → Answer (Option (List Entry)) → Type 0
Lists caps value_error = lacks_spec caps ≡ true
Lists caps (ok none) = ⊥
Lists caps (ok (some es)) =
    (lacks_spec caps ≡ false)
    × (distinct (names_of es) ≡ true)
    × ((name : String) → elem name (capability_names caps) ≡ true → elem name (names_of es) ≡ true)

abbrev Entries : List Capability → Answer (List Entry) → Type 0
Entries caps value_error = lacks_spec caps ≡ true
Entries caps (ok es) = (lacks_spec caps ≡ false) × (names_of es ≡ capability_names caps)

Entries-onto :
    (c : Capability) (cs : List Capability) (e : Entry) (r : Answer (List Entry))
    → str_eq c.spec "" ≡ false
    → e.name ≡ c.name
    → Entries cs r
    → Entries (c ∷ cs) (do es ← r; ok (e ∷ es))
Entries-onto c cs e value_error plain same h = rw plain h
Entries-onto c cs e (ok es) plain same (given, names) = (rw plain given, rw (same, names) refl)

entries_of-Entries : (repo : Repo) (caps : List Capability) → Entries caps (entries_of repo caps)
unfolding entries_of entry_of
entries_of-Entries repo [] = (refl, refl)
entries_of-Entries repo (c ∷ cs) = elim (Bool-cases (str_eq c.spec "")) [
  | inl bare ↦ rw bare (rw bare refl)
  | inr plain ↦
      rw plain (Entries-onto c cs _ (entries_of repo cs) plain refl (entries_of-Entries repo cs))
]

-- As with the entries, for the paths.
abbrev Claims : List Capability → Answer (List String) → Type 0
Claims caps value_error = lacks_spec caps ≡ true
Claims caps (ok claimed) = lacks_spec caps ≡ false

Claims-onto :
    (c : Capability) (cs : List Capability) (spec : String) (r : Answer (List String))
    → str_eq c.spec "" ≡ false
    → Claims cs r
    → Claims (c ∷ cs) (do later ← r; ok (spec ∷ later))
Claims-onto c cs spec value_error plain h = rw plain h
Claims-onto c cs spec (ok later) plain h = rw plain h

claimed_specs-Claims : (caps : List Capability) → Claims caps (claimed_specs caps)
unfolding claimed_specs
claimed_specs-Claims [] = refl
claimed_specs-Claims (c ∷ cs) = elim (Bool-cases (str_eq c.spec "")) [
  | inl bare ↦ rw (bare, bare) refl
  | inr plain ↦
      rw plain
        (Claims-onto c cs (normpath c.spec) (claimed_specs cs) plain (claimed_specs-Claims cs))
]

Lists-joined :
    (caps : List Capability) (es : List Entry) (r : Option (List Entry))
    → lacks_spec caps ≡ false
    → distinct (capability_names caps) ≡ true
    → names_of es ≡ capability_names caps
    → Adds (names_of es) r
    → Lists caps (ok (joined es r))
Lists-joined caps es none given unique names h = h
Lists-joined caps es (some fs) given unique names (d, apart) = (
  given,
  distinct-sort_entries (es ++ fs) ∙ distinct-append es fs (rw names unique) d apart,
  λ name h.
      elem-sort_entries (es ++ fs) name ∙ elem-names_of-append es fs name ∙ rw names (rw h refl),
)

Claims-then :
    (caps : List Capability) (r : Answer (List String)) (f : List String → List String)
    → Claims caps r
    → Claims caps (do claimed ← r; ok (f claimed))
Claims-then caps value_error f h = h
Claims-then caps (ok claimed) f h = h

Claims-find_orphans : (caps : List Capability) (root : Tree) → Claims caps (find_orphans caps root)
unfolding find_orphans
Claims-find_orphans caps root = Claims-then caps (claimed_specs caps) _ (claimed_specs-Claims caps)

Lists-finish :
    (repo : Repo) (caps : List Capability) (r : Answer (List Entry)) (o : Answer (List String))
    → distinct (capability_names caps) ≡ true
    → Entries caps r
    → Claims caps o
    → Lists caps (do
      es ← r
      orphans ← o
      ok (joined es (discover_from repo (norm_specs es) (names_of es) orphans)))
Lists-finish repo caps value_error o unique h c = h
Lists-finish repo caps (ok es) value_error unique h c = c
Lists-finish repo caps (ok es) (ok orphans) unique (given, names) c =
    Lists-joined caps es (discover_from repo (norm_specs es) (names_of es) orphans) given unique
      names (discover_from-Adds repo (norm_specs es) (names_of es) orphans)

-- Where the names of the registry are distinct, `discover_all` raises exactly if a capability has no
-- spec path. Else it ends, each name that it lists stands there once, and each name of the registry
-- is listed.
pub discover_all-Lists :
    (repo : Repo) (caps : List Capability) (root : Tree)
    → distinct (capability_names caps) ≡ true
    → Lists caps (discover_all repo caps root)
unfolding discover_all
discover_all-Lists repo caps root unique =
    Lists-finish repo caps (entries_of repo caps) (find_orphans caps root) unique
      (entries_of-Entries repo caps) (Claims-find_orphans caps root)
