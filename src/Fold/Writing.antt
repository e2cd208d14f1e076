-- ===== src/Fold/Writing.antt =====
-- The loop of `fold_living_spec` over its targets, and the whole of it. The lines that it prints are
-- left out, and with them the counts and the gap of accountability, which nothing else reads.
use saga_forge.Base.{
  Bool, true, false, not, ◌&&◌, ◌||◌, List, [], ◌∷◌, ◌++◌, Char, String, Option, none, some, str_eq,
  if◌then◌else◌, keep, length, ◌==◌,
}
use saga_forge.Text.{is, cat, strip}
use saga_forge.Deltas.{
  Deltas, parse_spec_deltas, has_deltas, deltas_for, apply_deltas, fences_are_balanced,
}
use saga_forge.Resolver.{Capability, Repo, Answer, ok, value_error, Entry, Tree, requirement_slices}
use saga_forge.Validate.{Finding, error, warning, Known, check_feature_deltas}
use saga_forge.Fold.Targets.{FoldTargets, marker_names, resolve_fold_targets}

-- The texts of the files, by path
abbrev pub Disk : Type 0
Disk = List (String × String)

unfoldable pub text_at : String → Disk → Option String
text_at p [] = none
text_at p ((q, t) ∷ d) = if str_eq q p then some t else text_at p d

-- `write_text`
unfoldable pub put_text : String → String → Disk → Disk
put_text p t [] = (p, t) ∷ []
put_text p t ((q, u) ∷ d) = if str_eq q p then (q, t) ∷ d else (q, u) ∷ put_text p t d

-- What is outside: the characters of the interpreter, and which paths raise an `OSError`.
pub record Host : Type 0 where
  pub is_word : Char → Bool
  pub upper : Char → String
  pub can_read : String → Bool
  pub can_write : String → Bool

abbrev spaced : Char → Char
spaced c = if is c b'-' || is c b'_' then " " else c

unfoldable pub all_spaced : String → String
all_spaced String.[] = String.[]
all_spaced (String.◌∷◌ c s) = String.◌∷◌ (spaced c) (all_spaced s)

abbrev capital : Host → String → String → String
capital host name String.[] = name
capital host name (String.◌∷◌ c s) = cat (host.upper c) s

-- `_initial_living_spec`
unfoldable pub initial_living_spec : Host → String → String
unfolding all_spaced strip
initial_living_spec host name =
    cat "# "
      (cat (capital host name (strip (all_spaced name))) " — Living Spec\n\n## Requirements\n")

-- `_would_empty`
unfoldable pub would_empty : String → Bool
unfolding fences_are_balanced requirement_slices
would_empty text = fences_are_balanced text && length (requirement_slices text) == 0

abbrev named_targets : List Entry → List String
named_targets [] = []
named_targets (e ∷ es) = if str_eq e.name "" then named_targets es else e.name ∷ named_targets es

-- `path.read_text()` where the file is there and can be read
abbrev pub read_at : Host → String → Disk → Option String
read_at host p d = if host.can_read p then text_at p d else none

-- `texts.get(name)`: the last target of the name that has a text
abbrev or_text : Option String → Option String → Option String
or_text (some t) other = some t
or_text none other = other

abbrev own_text : Host → Disk → String → Entry → Option String
own_text host d name e =
    if str_eq e.name name && not (str_eq e.spec "") && not (str_eq e.name "")
    then read_at host e.spec d
    else none

abbrev target_text : Host → Disk → List Entry → String → Option String
target_text host d [] name = none
target_text host d (e ∷ es) name = or_text (target_text host d es name) (own_text host d name e)

-- The arguments that `_shape_errors` gives the check; it records no removals.
abbrev pub known_of : Host → Disk → FoldTargets → Known
known_of host d ts = record {
  is_word = host.is_word;
  names = named_targets ts.entries;
  target = target_text host d ts.entries;
  default_capability = ts.default_name;
  removed_of = λ name. [];
}

abbrev is_blocking : String → Finding → Bool
is_blocking name f = elim f.severity [
  | warning ↦ false
  | error ↦ elim f.capability [ none ↦ false | some c ↦ str_eq c name ]
]

-- `blocked.get(name)` of `_shape_errors`
unfoldable pub shape_errors : Host → Disk → String → FoldTargets → String → List Finding
unfolding check_feature_deltas text_at
shape_errors host d text ts name =
    keep (is_blocking name) (check_feature_deltas (known_of host d ts) text)

abbrev is_default : String → Option String → Bool
is_default name none = false
is_default name (some d) = str_eq name d

-- `_deltas_for` of a target
abbrev pub routed : Deltas → Option String → Entry → Deltas
routed d default_name e = deltas_for d e.name (is_default e.name default_name)

abbrev pub is_free : List Finding → Bool
is_free [] = true
is_free (_ ∷ _) = false

-- The guards of the loop before a text is read
abbrev pub is_ready : (String → List Finding) → Deltas → Option String → Entry → Bool
is_ready blocked d default_name e =
    not (str_eq e.spec "") && has_deltas (routed d default_name e) && is_free (blocked e.name)

-- The texts of the specs and `synced`, between two targets
pub record Progress : Type 0 where
  pub disk : Disk
  pub synced : List String

-- `before`, or `None` where it cannot be read
abbrev pub text_before : Host → Entry → Disk → Option String
text_before host e d = elim (text_at e.spec d) [
  | none ↦ some (initial_living_spec host e.name)
  | some t ↦ if host.can_read e.spec then some t else none
]

-- Whether the text is written
abbrev pub is_written : Host → Entry → String → String → Bool
is_written host e before after =
    not (not (str_eq after before) && would_empty after && not e.retire)
    && not (str_eq after before)
    && host.can_write e.spec

abbrev pub write_if : Bool → Entry → String → Progress → Progress
write_if true e after p = record {
  disk = put_text e.spec after p.disk;
  synced = p.synced ++ e.name ∷ [];
}
write_if false e after p = p

abbrev pub write_after : Host → Entry → Deltas → Option String → Progress → Progress
write_after host e d none p = p
write_after host e d (some before) p =
    let after = (apply_deltas before d).content in
    write_if (is_written host e before after) e after p

-- One pass of the loop
abbrev pub fold_target :
    Host → (String → List Finding) → Deltas → Option String → Entry → Progress → Progress
fold_target host blocked d default_name e p =
    if is_ready blocked d default_name e
    then write_after host e (routed d default_name e) (text_before host e p.disk) p
    else p

unfoldable pub fold_targets :
    Host → (String → List Finding) → Deltas → Option String → List Entry → Progress → Progress
unfolding deltas_for apply_deltas text_at put_text initial_living_spec would_empty
fold_targets host blocked d default_name [] p = p
fold_targets host blocked d default_name (e ∷ es) p =
    fold_targets host blocked d default_name es (fold_target host blocked d default_name e p)

-- What `fold_living_spec` leaves: nothing; the note of `_note_nothing_loaded`, on a run that loaded
-- no capability; or the names that it gives to `set_living_specs_synced`.
pub data Outcome : Type 0 where
  unchanged : Outcome
  nothing_loaded : Outcome
  folded : List String → Outcome

abbrev pub outcome_of : Disk → List String → Disk × Outcome
outcome_of d [] = (d, unchanged)
outcome_of d (n ∷ ns) = (d, folded (n ∷ ns))

abbrev pub fold_into : Host → Disk → String → Deltas → FoldTargets → Disk × Outcome
fold_into host d text deltas ts =
    let p =
      fold_targets host (shape_errors host d text ts) deltas ts.default_name ts.entries
        (record { disk = d; synced = [] }) in
    outcome_of p.disk p.synced

abbrev pub fold_answer : Host → Disk → String → Deltas → Answer FoldTargets → Disk × Outcome
fold_answer host d text deltas value_error = (d, unchanged)
fold_answer host d text deltas (ok ts) = fold_into host d text deltas ts

-- The feature and the project: whether living specs are on, the text of the feature spec if it can
-- be read, the names that it recorded as loaded, the changed files, and the registry.
pub record Feature : Type 0 where
  pub enabled : Bool
  pub spec : Option String
  pub loaded : List String
  pub changed : List String
  pub capabilities : List Capability

abbrev pub fold_text : Host → Repo → Tree → Disk → Feature → Option String → Disk × Outcome
fold_text host repo tree d f none = (d, unchanged)
fold_text host repo tree d f (some text) =
    let deltas = parse_spec_deltas text in
    if has_deltas deltas
    then fold_answer host d text deltas
        (resolve_fold_targets repo tree f.changed f.capabilities (marker_names text deltas))
    else elim f.loaded [ [] ↦ (d, nothing_loaded) | _ ∷ _ ↦ (d, unchanged) ]

-- `fold_living_spec`
unfoldable pub fold_living_spec : Host → Repo → Tree → Disk → Feature → Disk × Outcome
unfolding parse_spec_deltas marker_names resolve_fold_targets shape_errors fold_targets
fold_living_spec host repo tree d f =
    if f.enabled then fold_text host repo tree d f f.spec else (d, unchanged)
