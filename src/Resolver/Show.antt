-- ===== src/Resolver/Show.antt =====
-- The answers of `--headings`, `--requirement`, `--leaned-on-by` and `--file`.
use saga_forge.Base.{
  Bool, true, false, ◌&&◌, ◌||◌, List, [], ◌∷◌, ◌++◌, String, Option, none, some, is_some,
  if◌then◌else◌, str_eq,
}
use saga_forge.Text.{strip}
use saga_forge.Resolver.Slices.{Slice, requirement_slices}
use saga_forge.Resolver.Registry.{Capability, Repo, Answer, ok, ◌>>=◌, Entry, entry_of}
use saga_forge.Resolver.Loading.{body_text, partition_hash}

-- A capability by its name, with the text of its spec if that can be read.
pub record Found : Type 0 where
  pub entry : Entry
  pub readable : Bool
  pub text : Option String

abbrev found : Repo → Entry → Found
found repo e =
    if e.exists
    then record { entry = e; readable = is_some (repo.read e.spec); text = repo.read e.spec }
    else record { entry = e; readable = false; text = none }

abbrev text_slices : Option String → List Slice
text_slices none = []
text_slices (some text) = if str_eq text "" then [] else requirement_slices text

-- `_slices_of`
abbrev pub slices_of : Found → List Slice
slices_of f = text_slices f.text

-- `_requirement_payload`
pub record Payload : Type 0 where
  pub capability : String
  pub heading : String
  pub touches : List String
  pub body : String

abbrev pub payload : String → Slice → Payload
payload name s = record {
  capability = name;
  heading = s.heading;
  touches = s.marks.touches;
  body = body_text s;
}

abbrev pub payloads : String → (Slice → Bool) → List Slice → List Payload
payloads name test [] = []
payloads name test (s ∷ ss) =
    if test s then payload name s ∷ payloads name test ss else payloads name test ss

abbrev from_found : (Slice → Bool) → Option Found → List Payload
from_found test none = []
from_found test (some f) = payloads f.entry.name test (slices_of f)

-- `capability_names`
abbrev pub scope_names : List Capability → List String
scope_names [] = []
scope_names (c ∷ cs) = if str_eq c.name "" then scope_names cs else c.name ∷ scope_names cs

abbrev scope_of : Option String → List Capability → List String
scope_of none caps = scope_names caps
scope_of (some name) caps = if str_eq name "" then scope_names caps else name ∷ []

abbrev same_parts : String × String → String × String → Bool
same_parts (c, h) (d, k) = str_eq (strip c) (strip d) && str_eq (strip h) (strip k)

unfoldable pub leans_on : String → List String → Bool
unfolding partition_hash strip
leans_on target [] = false
leans_on target (r ∷ rs) =
    same_parts (partition_hash r) (partition_hash target) || leans_on target rs

pub record Headings : Type 0 where
  pub registered : Bool
  pub exists : Bool
  pub readable : Bool
  pub requirements : List (String × List String)

abbrev heading_list : List Slice → List (String × List String)
heading_list [] = []
heading_list (s ∷ ss) = (s.heading, s.marks.touches) ∷ heading_list ss

abbrev headings_of : Option Found → Headings
headings_of none = record {
  registered = false;
  exists = false;
  readable = false;
  requirements = [];
}
headings_of (some f) = record {
  registered = true;
  exists = f.entry.exists;
  readable = f.readable;
  requirements = heading_list (slices_of f);
}

-- `str.lower` is a parameter: it goes by the tables of Unicode.
module _ (lower : String → String) where
  abbrev pub folded : String → String
  folded s = lower (strip s)

  -- `capability_by_name`: the first of the name, without regard to case
  unfoldable pub capability_by_name : Repo → List Capability → String → Answer (Option Found)
  unfolding entry_of strip
  capability_by_name repo [] name = ok none
  capability_by_name repo (c ∷ cs) name =
      let here = (do e ← entry_of repo c; ok (some (found repo e))) in
      let later = capability_by_name repo cs name in
      if str_eq (folded c.name) (folded name) then here else later

  -- The payloads of the slices that pass a test, over the capabilities of a scope
  unfoldable pub payloads_in :
      Repo → List Capability → (Slice → Bool) → List String → Answer (List Payload)
  unfolding capability_by_name requirement_slices strip
  payloads_in repo caps test [] = ok []
  payloads_in repo caps test (name ∷ names) = do
    f ← capability_by_name repo caps name
    rest ← payloads_in repo caps test names
    ok (from_found test f ++ rest)

  -- The matches of `show_requirement`
  unfoldable pub show_requirement :
      Repo → List Capability → String → Option String → Answer (List Payload)
  unfolding payloads_in strip
  show_requirement repo caps name capability =
      payloads_in repo caps (λ s. str_eq (folded s.heading) (folded name))
        (scope_of capability caps)

  -- The matches of `show_leaned_on_by`
  unfoldable pub show_leaned_on_by : Repo → List Capability → String → Answer (List Payload)
  unfolding payloads_in leans_on
  show_leaned_on_by repo caps target =
      payloads_in repo caps (λ s. leans_on target s.marks.aligns) (scope_names caps)

  -- `show_headings`, without the names that ride along
  unfoldable pub show_headings : Repo → List Capability → String → Answer Headings
  unfolding capability_by_name requirement_slices
  show_headings repo caps name = do f ← capability_by_name repo caps name; ok (headings_of f)
