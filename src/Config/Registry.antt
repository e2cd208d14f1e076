-- ===== src/Config/Registry.antt =====
-- The registry block of `companion_config.py`, normalized: `_as_list`, `load_rules`,
-- `load_living_specs_block` and `_settle_default_specs`.
use saga_forge.Base.{
  ℕ, Bool, true, false, not, ◌&&◌, List, [], ◌∷◌, Char, code, String, leb, ◌==◌, ◌+◌, if◌then◌else◌,
  str_eq,
}
use saga_forge.Text.{cat, strip, numeral}
use saga_forge.Config.Values.{
  Value, null, bool, int, str, seq, map, Fields, empty, field, get, has_key, truthy, to_list,
}
use saga_forge.Resolver.{Capability}

-- `str.lower` on ASCII. No other letter has a lower case in `central` or `colocated`.
ascii_lower : Char → ℕ
ascii_lower c = if leb 65 (code c) && leb (code c) 90 then code c + 32 else code c

unfoldable pub lowers_to : String → String → Bool
unfolding ascii_lower
lowers_to String.[] String.[] = true
lowers_to (String.◌∷◌ c s) (String.◌∷◌ d t) = ascii_lower c == code d && lowers_to s t
lowers_to _ _ = false

pub data Layout : Type 0 where
  central colocated : Layout

abbrev pub layout_of : String → Layout
layout_of s = if lowers_to s "colocated" then colocated else central

pub record Rules : Type 0 where
  pub spec : List String
  pub plan : List String

abbrev pub no_rules : Rules
no_rules = record { spec = []; plan = [] }

pub record Living : Type 0 where
  pub enabled : Bool
  pub layout : Layout
  pub exempt : List String
  pub capabilities : List Capability
  pub rules : Rules

abbrev default_exempt : List String
default_exempt = "**/*.config.*" ∷ "**/*.test.*" ∷ "**/__tests__/**" ∷ "**/migrations/**" ∷ []

abbrev pub nothing : Living
nothing = record {
  enabled = false;
  layout = central;
  exempt = default_exempt;
  capabilities = [];
  rules = no_rules;
}

abbrev is_blank_value : Value → Bool
is_blank_value null = true
is_blank_value (str s) = str_eq s ""
is_blank_value _ = false

-- `show` is `str` of a list or a dict.
module _ (show : Value → String) where
  -- `str(v)`
  abbrev pub text_of : Value → String
  text_of null = "None"
  text_of (bool true) = "True"
  text_of (bool false) = "False"
  text_of (int true n) = cat "-" (numeral n)
  text_of (int false n) = numeral n
  text_of (str s) = s
  text_of (seq vs) = show (seq vs)
  text_of (map d) = show (map d)

  abbrev pub texts_of : List Value → List String
  texts_of [] = []
  texts_of (v ∷ vs) = if is_blank_value v then texts_of vs else text_of v ∷ texts_of vs

  -- `_as_list`
  abbrev pub as_list : Value → List String
  as_list (seq vs) = texts_of (to_list vs)
  as_list v = if is_blank_value v then [] else text_of v ∷ []

  -- A step of the pipeline takes a list, or nothing.
  abbrev rule_list : Value → List String → List String
  rule_list null rules = []
  rule_list (seq vs) rules = as_list (seq vs)
  rule_list _ rules = rules

  abbrev add_rules : String → Value → Rules → Rules
  add_rules key v r =
      if str_eq key "spec"
      then record r { spec = rule_list v r.spec }
      else if str_eq key "plan"
      then record r { plan = rule_list v r.plan }
      else r

  unfoldable pub rules_from : Fields → Rules → Rules
  unfolding numeral
  rules_from empty r = r
  rules_from (field k v d) r = rules_from d (add_rules k v r)

  -- `load_rules`, without its warnings
  abbrev pub load_rules : Value → Rules
  load_rules (map d) = rules_from d no_rules
  load_rules _ = no_rules

  abbrev default_spec : String → String
  default_spec name = cat "capabilities/" (cat name (cat "/" (cat name ".spec.md")))

  abbrev declared_spec : Value → String
  declared_spec v = if is_blank_value v then "" else text_of v

  abbrev is_true : Value → Bool
  is_true (bool b) = b
  is_true _ = false

  abbrev capability_of : Fields → Capability
  capability_of e = record {
    name = text_of (get "name" e);
    match_globs = as_list (get "match" e);
    exclude = as_list (get "exclude" e);
    spec =
        if has_key "spec" e
        then declared_spec (get "spec" e)
        else default_spec (text_of (get "name" e));
    spec_defaulted = not (has_key "spec" e);
    retire = is_true (get "retire" e);
  }

  abbrev capability_onto : Value → List Capability → List Capability
  capability_onto (map e) cs = if truthy (get "name" e) then capability_of e ∷ cs else cs
  capability_onto _ cs = cs

  unfoldable pub capabilities_from : List Value → List Capability
  unfolding get has_key numeral
  capabilities_from [] = []
  capabilities_from (v ∷ vs) = capability_onto v (capabilities_from vs)

  abbrev capability_list : Value → List Capability
  capability_list (seq vs) = capabilities_from (to_list vs)
  capability_list _ = []

  abbrev layout_text : Value → String
  layout_text v = if truthy v then strip (text_of v) else "central"

  abbrev of_fields : Fields → Living
  of_fields d = record {
    enabled = truthy (get "enabled" d);
    layout = layout_of (layout_text (get "layout" d));
    exempt = if has_key "exempt" d then as_list (get "exempt" d) else default_exempt;
    capabilities = capability_list (get "capabilities" d);
    rules = load_rules (get "rules" d);
  }

  -- A block that holds `livingSpecs` is unwrapped.
  abbrev unwrapped : Fields → Value → Living
  unwrapped d (map inner) = of_fields inner
  unwrapped d _ = of_fields d

  -- `load_living_specs_block`
  unfoldable pub load_living_specs_block : Value → Living
  unfolding capabilities_from rules_from get has_key lowers_to strip numeral
  load_living_specs_block (map d) = unwrapped d (get "livingSpecs" d)
  load_living_specs_block v = if truthy v then nothing else of_fields empty

-- `_settle_default_specs` for one capability
abbrev legacy_spec : String → String
legacy_spec name = cat "capabilities/" (cat name "/spec.md")

abbrev pub settled : (String → Bool) → Capability → Capability
settled exists cap =
    if cap.spec_defaulted
      && not (str_eq cap.spec "")
      && not (exists cap.spec)
      && exists (legacy_spec cap.name)
    then record cap { spec = legacy_spec cap.name }
    else cap

abbrev settle_all : (String → Bool) → List Capability → List Capability
settle_all exists [] = []
settle_all exists (c ∷ cs) = settled exists c ∷ settle_all exists cs

unfoldable pub settle_default_specs : (String → Bool) → Living → Living
settle_default_specs exists living = record living {
  capabilities = settle_all exists living.capabilities;
}
