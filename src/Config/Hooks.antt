-- ===== src/Config/Hooks.antt =====
-- The recipe of a command in `companion_config.py`: `resolve_order`, `resolve_phases`, `merge_hooks` and
-- `validate_reads`.
use saga_forge.Base.{
  ℕ, suc, Bool, true, false, not, ◌&&◌, ◌||◌, List, [], ◌∷◌, ◌++◌, String, elem, any, if◌then◌else◌,
  str_eq,
}
use saga_forge.Text.{cat, strip, starts, ends}
use saga_forge.Config.Values.{
  Value, str, seq, map, Fields, empty, field, get, has_key, truthy, to_list,
}
use saga_forge.Config.Registry.{text_of}

-- A result; a `ConfigError`; or another exception, where the configuration is of a wrong type.
pub data Outcome {ℓ} (A : Type ℓ) : Type ℓ where
  ok : A → Outcome A
  config_error : Outcome A
  crash : Outcome A

infixl 5 ◌>>=◌
abbrev pub ◌>>=◌ {ℓ κ} : {A : Type ℓ} {B : Type κ} → Outcome A → (A → Outcome B) → Outcome B
ok a >>= f = f a
config_error >>= f = config_error
crash >>= f = crash

-- `v or {}`, on which a method of a dict is called
abbrev pub dict_or_crash : Value → Outcome Fields
dict_or_crash (map d) = ok d
dict_or_crash v = if truthy v then crash else ok empty

-- `(config.get("commands") or {}).get(command) or {}`
abbrev pub command_of : Fields → String → Outcome Fields
command_of config command = do
  commands ← dict_or_crash (get "commands" config)
  dict_or_crash (get command commands)

-- `os.path.join`
abbrev join_path : String → String → String
join_path a b =
    if starts b "/" then b else if str_eq a "" || ends a "/" then cat a b else cat a (cat "/" b)

abbrev nonempty : List String → List String
nonempty [] = []
nonempty (d ∷ ds) = if str_eq d "" then nonempty ds else d ∷ nonempty ds

-- `find_node_file(ref, nodes_dir)` is not `None`.
unfoldable pub has_node_file : (String → Bool) → List String → String → Bool
has_node_file is_file dirs ref = any (λ d. is_file (join_path d (cat ref ".md"))) (nonempty dirs)

-- No directory is given, so that no file is looked for.
abbrev pub is_nil : List String → Bool
is_nil [] = true
is_nil (_ ∷ _) = false

pub record Phase : Type 0 where
  pub name : String
  pub nodes : List String

abbrev pub phase_names : List Phase → List String
phase_names [] = []
phase_names (p ∷ ps) = p.name ∷ phase_names ps

abbrev pub placed : List Phase → List String
placed [] = []
placed (p ∷ ps) = p.nodes ++ placed ps

-- A text of the list stands there more than once.
unfoldable pub repeats : List String → Bool
repeats [] = false
repeats (s ∷ ss) = elem s ss || repeats ss

pub data When : Type 0 where
  before after : When

pub record Hook : Type 0 where
  pub when : When
  pub anchor : String
  pub index : ℕ
  pub hook : Fields

pub record Merged : Type 0 where
  pub ordered : List Hook
  pub warnings : ℕ

abbrev pub hook_onto : Hook → Merged → Merged
hook_onto h m = record m { ordered = h ∷ m.ordered }

abbrev pub warn : Merged → Merged
warn m = record m { warnings = suc m.warnings }

-- `hook_list if isinstance(hook_list, list) else [hook_list]`
abbrev pub as_hooks : Value → List Value
as_hooks (seq vs) = to_list vs
as_hooks v = v ∷ []

pub data HookKind : Type 0 where
  command prompt node skill unknown unhashable : HookKind

abbrev kind_of_text : String → HookKind
kind_of_text s =
    if str_eq s "command"
    then command
    else if str_eq s "prompt"
    then prompt
    else if str_eq s "node"
    then node
    else if str_eq s "skill"
    then skill
    else unknown

-- `hook.get("type") not in HOOK_TYPES`: a list or a dict cannot be looked up in a set.
abbrev pub kind_of : Value → HookKind
kind_of (str s) = kind_of_text s
kind_of (seq vs) = unhashable
kind_of (map d) = unhashable
kind_of _ = unknown

module _ (show : Value → String) where
  -- `resolve_order`
  abbrev order_or : Value → List Value → List Value
  order_or (seq vs) default_order = if truthy (seq vs) then to_list vs else default_order
  order_or _ default_order = default_order

  unfoldable pub resolve_order : Fields → String → List Value → Outcome (List Value)
  unfolding get
  resolve_order config name default_order = do
    cmd ← command_of config name
    ok (order_or (get "nodes" cmd) default_order)

  abbrev pub node_texts : List Value → List String
  node_texts [] = []
  node_texts (v ∷ vs) = text_of show v ∷ node_texts vs

  abbrev pub text_or_empty : Value → String
  text_or_empty v = if truthy v then strip (text_of show v) else ""

  abbrev pub phase_nodes : Value → Outcome (List String)
  phase_nodes (seq vs) = if truthy (seq vs) then ok (node_texts (to_list vs)) else config_error
  phase_nodes _ = config_error

  abbrev pub named_phase : String → Value → Outcome Phase
  named_phase name nodes =
      if str_eq name ""
      then config_error
      else (do ns ← phase_nodes nodes; ok (record { name = name; nodes = ns }))

  abbrev pub phase_of : Value → Outcome Phase
  phase_of (map d) = named_phase (text_or_empty (get "name" d)) (get "nodes" d)
  phase_of _ = config_error

  unfoldable pub phases_from : List Value → Outcome (List Phase)
  unfolding get strip
  phases_from [] = ok []
  phases_from (v ∷ vs) = do p ← phase_of v; ps ← phases_from vs; ok (p ∷ ps)

  -- The two tests behind the loop
  abbrev pub checked : List Phase → Outcome (List Phase)
  checked ps = if repeats (phase_names ps) || repeats (placed ps) then config_error else ok ps

  abbrev pub phases_of : Value → Outcome (List Phase)
  phases_of (seq vs) = do ps ← phases_from (to_list vs); checked ps
  phases_of _ = ok []

  -- `resolve_phases`
  unfoldable pub resolve_phases : Fields → String → Outcome (List Phase)
  unfolding get phases_from repeats
  resolve_phases config name = do cmd ← command_of config name; phases_of (get "phases" cmd)

  -- What the two guards of `merge_hooks` want of a hook.
  abbrev pub node_passes : (String → Bool) → List String → Value → Bool
  node_passes is_file dirs ref =
      truthy ref && (is_nil dirs || has_node_file is_file dirs (text_of show ref))

  abbrev pub ref_text : Fields → String
  ref_text d = if has_key "ref" d then text_of show (get "ref" d) else ""

  abbrev pub skill_passes : Fields → Bool
  skill_passes d = not (str_eq (strip (ref_text d)) "")

  abbrev pub keep_if : Bool → Hook → Outcome Merged → Outcome Merged
  keep_if true h later = do m ← later; ok (hook_onto h m)
  keep_if false h later = config_error

  abbrev pub add_hook :
      HookKind → (String → Bool) → List String → Hook → Outcome Merged → Outcome Merged
  add_hook command is_file dirs h later = keep_if true h later
  add_hook prompt is_file dirs h later = keep_if true h later
  add_hook node is_file dirs h later = keep_if (node_passes is_file dirs (get "ref" h.hook)) h later
  add_hook skill is_file dirs h later = keep_if (skill_passes h.hook) h later
  add_hook unknown is_file dirs h later = do m ← later; ok (warn m)
  add_hook unhashable is_file dirs h later = crash

  abbrev pub add_value :
      (String → Bool) → List String → When → String → ℕ → Value → Outcome Merged → Outcome Merged
  add_value is_file dirs when anchor i (map d) later =
      add_hook (kind_of (get "type" d)) is_file dirs
        (record { when = when; anchor = anchor; index = i; hook = d }) later
  add_value is_file dirs when anchor i _ later = do m ← later; ok (warn m)

  -- The hooks of one anchor, and what comes behind them
  unfoldable pub hooks_at :
      (String → Bool)
      → List String
      → When
      → String
      → ℕ
      → List Value
      → Outcome Merged
      → Outcome Merged
  unfolding get has_key has_node_file strip
  hooks_at is_file dirs when anchor i [] later = later
  hooks_at is_file dirs when anchor i (v ∷ vs) later =
      add_value is_file dirs when anchor i v (hooks_at is_file dirs when anchor (suc i) vs later)

  unfoldable pub hooks_when :
      (String → Bool) → List String → List String → When → Fields → Outcome Merged → Outcome Merged
  unfolding hooks_at
  hooks_when is_file dirs active when empty later = later
  hooks_when is_file dirs active when (field anchor v d) later =
      let rest = hooks_when is_file dirs active when d later in
      if elem anchor active
      then hooks_at is_file dirs when anchor 0 (as_hooks v) rest
      else (do m ← rest; ok (warn m))

  -- Anchors that are no dict are passed over.
  abbrev pub anchors_of : Value → Fields
  anchors_of (map d) = d
  anchors_of _ = empty

  -- `merge_hooks`; the first exception in the order of the loops ends the call.
  unfoldable pub merge_hooks :
      (String → Bool) → List String → Fields → String → List String → Outcome Merged
  unfolding hooks_when get
  merge_hooks is_file dirs config name active = do
    cmd ← command_of config name
    hooks ← dict_or_crash (get "hooks" cmd)
    hooks_when is_file dirs active before (anchors_of (get "before" hooks)) (
        hooks_when is_file dirs active after (anchors_of (get "after" hooks))
          (ok (record { ordered = []; warnings = 0 })))

-- `active_meta` and `stands_in` of `validate_reads`
pub record Reads : Type 0 where
  pub node : String
  pub reads : List String

abbrev pub node_names : List Reads → List String
node_names [] = []
node_names (r ∷ rs) = r.node ∷ node_names rs

-- The slots of the variants that are active
unfoldable pub slots : List (String × String) → List String → List String
slots [] active = []
slots ((variant, slot) ∷ table) active =
    if elem variant active && not (str_eq slot "")
    then slot ∷ slots table active
    else slots table active

abbrev pub all_in : List String → List String → Bool
all_in [] active = true
all_in (d ∷ ds) active = elem d active && all_in ds active

abbrev pub all_read : List Reads → List String → Bool
all_read [] active = true
all_read (r ∷ rs) active = all_in r.reads active && all_read rs active

-- `validate_reads`
unfoldable pub validate_reads : List Reads → List (String × String) → Outcome (Unit {0})
unfolding slots
validate_reads meta table =
    if all_read meta (node_names meta ++ slots table (node_names meta)) then ok tt else config_error
