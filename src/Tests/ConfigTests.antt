-- ===== src/Tests/ConfigTests.antt =====
-- The reader, the registry, its writer and the phases at concrete inputs.
use saga_forge.Base.{◌≡◌, refl, true, false, List, [], ◌∷◌, String, none}
use saga_forge.Resolver.{Capability}
use saga_forge.Text.{strip, rstrip, skip_spaces, is_space}
use saga_forge.Config.Hooks
use saga_forge.Config.Hooks.{Phase, resolve_phases, repeats}
use saga_forge.Config.RoundTrip.{texts, parse_flow-yaml_flow_list}
use saga_forge.Config.FlowLists.{is_plain}
use saga_forge.Config.Phases.{with_phases, resolve_phases-with_phases}
use saga_forge.Config.FlowEnds.{Ends}
use saga_forge.Config.ReaderEnds.{load_yaml-Ends}
use saga_forge.Config.{
  splice_lines, Value, null, bool, str, seq, map, nil, cons, empty, field, ok, malformed,
  parse_flow, yaml_flow_list, load_yaml, render_registry, central, no_rules,
  load_living_specs_block,
}

abbrev sample : String
sample =
    "enabled: true  # on\ncapabilities:\n  - name: auth\n    match: [\"src/**\", 'b']\n  - name: x\n"

reads_a_registry :
    load_yaml sample
    ≡ ok (
        map (
          field "enabled" (bool true) (
            field "capabilities"
              (seq (
                cons
                  (map (
                    field "name"
                      (str "auth")
                      (field "match" (seq (cons (str "src/**") (cons (str "b") nil))) empty)))
                  (cons (map (field "name" (str "x") empty)) nil)))
              empty)))
unfolding load_yaml
reads_a_registry = refl

abbrev named : String → Capability
named name = record {
  name = name;
  match_globs = "src/**" ∷ [];
  exclude = [];
  spec = "";
  spec_defaulted = true;
  retire = false;
}

abbrev written : String → String
written name = render_registry true (named name ∷ []) none no_rules central

-- A bare `null` is written for the name `null`, and read as no name.
abbrev null_entry : Value
null_entry = map (
    field "enabled" (bool true) (
      field "capabilities"
        (seq (
          cons (map (field "name" null (field "match" (seq (cons (str "src/**") nil)) empty))) nil))
        empty))

loses_a_name : load_yaml (written "null") ≡ ok null_entry
unfolding load_yaml render_registry
loses_a_name = refl

drops_the_capability : (load_living_specs_block (λ v. "") null_entry).capabilities ≡ []
unfolding load_living_specs_block
drops_the_capability = refl

keeps_a_colon : load_yaml "\"a: b\": 'c'\n" ≡ ok (map (field "a: b" (str "c") empty))
unfolding load_yaml
keeps_a_colon = refl

refuses_a_wrong_indent : load_yaml "a: 1\n  - b\n" ≡ malformed
unfolding load_yaml
refuses_a_wrong_indent = refl

parse_flow-yaml_flow_list_example :
    parse_flow 4 (yaml_flow_list ("src/**" ∷ "a, b" ∷ []))
    ≡ ok (seq (texts ("src/**" ∷ "a, b" ∷ [])))
unfolding is_plain
parse_flow-yaml_flow_list_example = parse_flow-yaml_flow_list 2 ("src/**" ∷ "a, b" ∷ []) refl

abbrev two_phases : List Phase
two_phases =
    record { name = "Draft"; nodes = "outline" ∷ "write" ∷ [] }
    ∷ record { name = "Check"; nodes = "review" ∷ [] }
    ∷ []

resolve_phases-with_phases_example :
    resolve_phases (λ v. "") (with_phases "specify" two_phases) "specify" ≡ Hooks.ok two_phases
unfolding strip rstrip skip_spaces is_space repeats
resolve_phases-with_phases_example =
    resolve_phases-with_phases (λ v. "") "specify" two_phases refl (refl, refl, refl)

abbrev old_file : List String
old_file = "# registry\n" ∷ "enabled: false\n" ∷ "capabilities: []\n" ∷ "\n" ∷ "other: 1\n" ∷ []

abbrev new_block : List String
new_block = "enabled: true\n" ∷ "capabilities:\n" ∷ "  - name: x\n" ∷ []

keeps_the_rest :
    splice_lines old_file new_block
    ≡ "# registry\n" ∷ "enabled: true\n" ∷ "capabilities:\n" ∷ "  - name: x\n" ∷ "\n" ∷ "other: 1\n"
      ∷ []
unfolding splice_lines
keeps_the_rest = refl

nested_items : load_yaml "- - a: 1\n" ≡ malformed
unfolding load_yaml
nested_items = refl

load_yaml-Ends_example : Ends (load_yaml sample)
load_yaml-Ends_example = load_yaml-Ends sample
