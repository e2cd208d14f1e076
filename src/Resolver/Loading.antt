-- ===== src/Resolver/Loading.antt =====
-- `requirements_for_changed` with `_follow_aligns`: what a load contributes for a set of changed files.
use saga_forge.Base.{
  Bool, true, false, not, ◌&&◌, ◌||◌, List, [], ◌∷◌, ◌++◌, String, Option, none, some, elem,
  if◌then◌else◌, str_eq,
}
use saga_forge.Text.{is, strip, join_with}
use saga_forge.Resolver.Slices.{
  Slice, requirement_slices, requirements_for_change, has_no_markers, purpose_section, is_unmarked,
}
use saga_forge.Resolver.Registry.{
  Capability, Repo, Answer, ok, ◌>>=◌, resolve_spec, Hit, match_changed,
}

-- A requirement as it is handed over; `via` says that an `aligns` edge brought it.
pub record Requirement : Type 0 where
  pub heading : String
  pub matched : Bool
  pub via : Bool
  pub body : String
  pub aligns : List String

pub record Item : Type 0 where
  pub name : String
  pub spec : String
  pub exists : Bool
  pub whole : Bool
  pub purpose : Option String
  pub requirements : List Requirement

abbrev or_none : String → Option String
or_none s = if str_eq s "" then none else some s

abbrev pub body_text : Slice → String
body_text s = strip (join_with "\n" s.body)

abbrev pub picked : List Slice → List Requirement
picked [] = []
picked (s ∷ ss) =
    record {
      heading = s.heading;
      matched = not (is_unmarked s);
      via = false;
      body = body_text s;
      aligns = s.marks.aligns;
    }
    ∷ picked ss

abbrev whole_item : Hit → Item
whole_item h = record {
  name = h.entry.name;
  spec = h.entry.spec;
  exists = h.entry.exists;
  whole = true;
  purpose = none;
  requirements = [];
}

abbrev sliced_item : Hit → List String → String → List Slice → Item
sliced_item h files text slices =
    if has_no_markers slices then whole_item h else record (whole_item h) {
      whole = false;
      purpose = or_none (purpose_section text);
      requirements = picked (requirements_for_change slices files);
    }

abbrev read_item : Hit → List String → Option String → Item
read_item h files none = whole_item h
read_item h files (some text) = sliced_item h files text (requirement_slices text)

abbrev pub load_item : Repo → List String → Hit → Item
load_item repo files h =
    if h.entry.exists then read_item h files (repo.read h.entry.spec) else whole_item h

abbrev pub load_items : Repo → List String → List Hit → List Item
load_items repo files [] = []
load_items repo files (h ∷ hs) = load_item repo files h ∷ load_items repo files hs

-- `ref.partition("#")`, its first and last part
unfoldable pub partition_hash : String → String × String
partition_hash String.[] = (String.[], String.[])
partition_hash (String.◌∷◌ c s) =
    let (l, r) = partition_hash s in if is c b'#' then (String.[], s) else (String.◌∷◌ c l, r)

-- `wanted`, in the order of insertion
abbrev pub Wanted : Type 0
Wanted = List (String × List String)

-- `wanted.setdefault(name, set()).add(heading)`
unfoldable pub want : String → String → Wanted → Wanted
want name heading [] = (name, heading ∷ []) ∷ []
want name heading ((n, hs) ∷ w) =
    if str_eq n name then (n, heading ∷ hs) ∷ w else (n, hs) ∷ want name heading w

abbrev want_parts : String × String → Wanted → Wanted
want_parts (name, heading) w =
    if str_eq name "" || str_eq heading "" then w else want (strip name) (strip heading) w

abbrev want_refs : List String → Wanted → Wanted
want_refs [] w = w
want_refs (r ∷ rs) w = want_refs rs (want_parts (partition_hash r) w)

abbrev want_requirements : List Requirement → Wanted → Wanted
want_requirements [] w = w
want_requirements (r ∷ rs) w = want_requirements rs (want_refs r.aligns w)

abbrev pub want_items : List Item → Wanted → Wanted
want_items [] w = w
want_items (i ∷ is) w = want_items is (want_requirements i.requirements w)

-- `{c.get("name"): c for c in …}`: the last of a name stands.
abbrev or_this : Option Capability → Bool → Capability → Option Capability
or_this (some c) b d = some c
or_this none true d = some d
or_this none false d = none

abbrev pub last_named : String → List Capability → Option Capability
last_named name [] = none
last_named name (c ∷ cs) = or_this (last_named name cs) (str_eq c.name name) c

abbrev headings_of : List Requirement → List String
headings_of [] = []
headings_of (r ∷ rs) = r.heading ∷ headings_of rs

abbrev aligned : Slice → Requirement
aligned s = record {
  heading = s.heading;
  matched = false;
  via = true;
  body = body_text s;
  aligns = [];
}

-- The requirements that the headings name, without those that are there.
unfoldable pub aligned_from : List String → List String → List Slice → List Requirement
unfolding strip
aligned_from headings have [] = []
aligned_from headings have (s ∷ ss) =
    let rest = aligned_from headings have ss in
    if elem s.heading headings && not (elem s.heading have) then aligned s ∷ rest else rest

abbrev extend : List String → List Slice → Item → Item
extend headings slices i = record i {
  requirements = i.requirements ++ aligned_from headings (headings_of i.requirements) slices;
}

abbrev has_item : String → List Item → Bool
has_item name [] = false
has_item name (i ∷ is) = str_eq i.name name || has_item name is

-- `by_name` keeps the last item of a name.
abbrev extend_named : String → List String → List Slice → List Item → List Item
extend_named name headings slices [] = []
extend_named name headings slices (i ∷ is) =
    if str_eq i.name name && not (has_item name is)
    then extend headings slices i ∷ is
    else i ∷ extend_named name headings slices is

abbrev aligned_item : String → String → String → Item
aligned_item name spec text = record {
  name = name;
  spec = spec;
  exists = true;
  whole = false;
  purpose = or_none (purpose_section text);
  requirements = [];
}

abbrev follow_text : String → List String → String → Option String → List Item → List Item
follow_text name headings spec none out = out
follow_text name headings spec (some text) out =
    extend_named name headings (requirement_slices text)
      (if has_item name out then out else out ++ aligned_item name spec text ∷ [])

abbrev follow_named :
    Repo → String → List String → Option Capability → List Item → Answer (List Item)
follow_named repo name headings none out = ok out
follow_named repo name headings (some cap) out = do
  spec ← resolve_spec cap
  ok (follow_text name headings spec (repo.read spec) out)

unfoldable pub follow_wanted : Repo → List Capability → Wanted → List Item → Answer (List Item)
unfolding requirement_slices purpose_section aligned_from
follow_wanted repo caps [] out = ok out
follow_wanted repo caps ((name, headings) ∷ w) out = do
  out' ← follow_named repo name headings (last_named name caps) out
  follow_wanted repo caps w out'

-- `_follow_aligns`
unfoldable pub follow_aligns : Repo → List Capability → List Item → Answer (List Item)
unfolding want partition_hash follow_wanted strip
follow_aligns repo caps out = follow_wanted repo caps (want_items out []) out

-- `requirements_for_changed`
unfoldable pub requirements_for_changed :
    Repo → List Capability → List String → Bool → Answer (List Item)
unfolding match_changed requirement_slices requirements_for_change purpose_section follow_aligns
    strip
requirements_for_changed repo caps files follow = do
  hits ← match_changed repo files caps
  let out = load_items repo files hits
  if follow then follow_aligns repo caps out else ok out
