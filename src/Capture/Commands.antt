-- ===== src/Capture/Commands.antt =====
-- The capture flags as one type of commands, with the fields that the command line names for them.
use saga_forge.Base.{
  Bool, List, [], ◌∷◌, String, Option, none, some, refl, Bool-cases, inl, inr, elem, ◌&&◌, ◌||◌,
  str_eq,
}
use saga_forge.Json.{Json, null, bool, num, str, arr, obj, Dict, get}
use saga_forge.Text.{strip}
use saga_forge.Context.{Folder, Env, Run, raised, left_by, canonical_steps}
use saga_forge.Capture.Merge.{Skip, cleaned, cleaned_skips}
use saga_forge.Capture.Writers.{
  save_names, save_skips, save_entries, save_strings, save_summary, save_coverage, coerced,
  coerce_entry, nothing, set_fields, set_living_specs_loaded, set_living_specs_synced,
  set_living_specs_skipped, append_capture_entries, append_string_list, upsert_coverage,
  upsert_step_summary, set_classification, save_verdict, is_verdict,
}
use saga_forge.Capture.Lifecycle.{
  SameLifecycle, SameLifecycle-refl, save-SameLifecycle, set_fields-SameLifecycle,
}

-- The fields that hold entries, and those that hold texts.
pub data EntryField : Type 0 where
  decisions verified concerns : EntryField

pub data TextField : Type 0 where
  expectations notes : TextField

abbrev pub entry_name : EntryField → String
entry_name decisions = "decisions"
entry_name verified = "verified"
entry_name concerns = "concerns"

abbrev pub entry_key : EntryField → String
entry_key decisions = "decision"
entry_key verified = "what"
entry_key concerns = "note"

abbrev pub text_name : TextField → String
text_name expectations = "expectations"
text_name notes = "context"

pub data Capture : Type 0 where
  set : List String → Capture
  load sync : List String → Capture
  skip : List Skip → Capture
  add_entries : EntryField → List String → Bool → Capture
  add_texts : TextField → List String → Capture
  cover : String → List String → List String → String → Capture
  summarise : String → String → Capture
  classify : String → Capture

-- `_main` ends with an error where a classification is refused.
abbrev or_raise : Folder → Option Run → Run
or_raise f none = raised f
or_raise f (some r) = r

module _ (coerce : String → Json) (loads : String → Option Json) (env : Env) where
  unfoldable pub capture : Capture → Folder → Run
  capture (set pairs) f = set_fields env coerce f pairs
  capture (load names) f = set_living_specs_loaded env f names
  capture (sync names) f = set_living_specs_synced env f names
  capture (skip skips) f = set_living_specs_skipped env f skips
  capture (add_entries field raws replace) f =
      append_capture_entries env loads f (entry_name field) (entry_key field) raws replace
  capture (add_texts field values) f = append_string_list env f (text_name field) values
  capture (cover req tasks tests title) f = upsert_coverage env f req tasks tests title
  capture (summarise step raw) f = upsert_step_summary env loads f step raw
  capture (classify raw) f = or_raise f (set_classification env loads f raw)

  save_names-SameLifecycle :
      (f : Folder) (slot : String) (names : List String)
      → SameLifecycle f (left_by (save_names env f slot names))
  save_names-SameLifecycle f slot [] = SameLifecycle-refl f
  save_names-SameLifecycle f slot (n ∷ names) = save-SameLifecycle env f "livingSpecs" _ refl

  save_skips-SameLifecycle :
      (f : Folder) (skips : List Skip) → SameLifecycle f (left_by (save_skips env f skips))
  save_skips-SameLifecycle f [] = SameLifecycle-refl f
  save_skips-SameLifecycle f (s ∷ skips) = save-SameLifecycle env f "livingSpecs" _ refl

  save_entries-SameLifecycle :
      (f : Folder) (field : EntryField) (replace : Bool) (es : List Json)
      → SameLifecycle f
          (left_by (save_entries env loads f (entry_name field) (entry_key field) replace es))
  save_entries-SameLifecycle f field replace [] = SameLifecycle-refl f
  save_entries-SameLifecycle f decisions replace (e ∷ es) =
      save-SameLifecycle env f "decisions" _ refl
  save_entries-SameLifecycle f verified replace (e ∷ es) =
      save-SameLifecycle env f "verified" _ refl
  save_entries-SameLifecycle f concerns replace (e ∷ es) =
      save-SameLifecycle env f "concerns" _ refl

  save_strings-SameLifecycle :
      (f : Folder) (field : TextField) (vs : List String)
      → SameLifecycle f (left_by (save_strings env f (text_name field) vs))
  save_strings-SameLifecycle f field [] = SameLifecycle-refl f
  save_strings-SameLifecycle f expectations (v ∷ vs) =
      save-SameLifecycle env f "expectations" _ refl
  save_strings-SameLifecycle f notes (v ∷ vs) = save-SameLifecycle env f "context" _ refl

  save_coverage-SameLifecycle :
      (f : Folder) (req : String) (tasks tests : List String) (title : String)
      → SameLifecycle f (left_by (save_coverage env f req tasks tests title))
  save_coverage-SameLifecycle f req tasks tests title =
      elim (Bool-cases
        (str_eq req "" || (nothing env tasks && nothing env tests && str_eq title ""))) [
          | inl idle ↦ rw idle (SameLifecycle-refl f)
          | inr busy ↦ rw busy (save-SameLifecycle env f "coverage" _ refl)
        ]

  save_summary-SameLifecycle :
      (f : Folder) (step : String) (e : Option Dict)
      → SameLifecycle f (left_by (save_summary env loads f step e))
  save_summary-SameLifecycle f step none = SameLifecycle-refl f
  save_summary-SameLifecycle f step (some e) = save-SameLifecycle env f "step_summaries" _ refl

  save_verdict-SameLifecycle :
      (f : Folder) (v : Option Json)
      → SameLifecycle f (left_by (or_raise f (save_verdict env loads f v)))
  save_verdict-SameLifecycle f (some (obj d)) =
      elim (Bool-cases (is_verdict env loads (get "verdict" d))) [
        | inl sound ↦ rw sound (save-SameLifecycle env f "classification" _ refl)
        | inr unsound ↦ rw unsound (SameLifecycle-refl f)
      ]
  save_verdict-SameLifecycle f none = SameLifecycle-refl f
  save_verdict-SameLifecycle f (some null) = SameLifecycle-refl f
  save_verdict-SameLifecycle f (some (bool _)) = SameLifecycle-refl f
  save_verdict-SameLifecycle f (some (num _)) = SameLifecycle-refl f
  save_verdict-SameLifecycle f (some (str _)) = SameLifecycle-refl f
  save_verdict-SameLifecycle f (some (arr _)) = SameLifecycle-refl f

  -- Whatever is captured, the lifecycle's log, status and current step read as before.
  pub capture-SameLifecycle : (c : Capture) (f : Folder) → SameLifecycle f (left_by (capture c f))
  unfolding capture
  capture-SameLifecycle (set pairs) f = set_fields-SameLifecycle coerce env f pairs
  capture-SameLifecycle (load names) f =
      unfold set_living_specs_loaded in save_names-SameLifecycle f "loaded" (cleaned names)
  capture-SameLifecycle (sync names) f =
      unfold set_living_specs_synced in save_names-SameLifecycle f "synced" (cleaned names)
  capture-SameLifecycle (skip skips) f =
      unfold set_living_specs_skipped in save_skips-SameLifecycle f (cleaned_skips skips)
  capture-SameLifecycle (add_entries field raws replace) f =
      unfold append_capture_entries in
      save_entries-SameLifecycle f field replace (coerced loads raws (entry_key field))
  capture-SameLifecycle (add_texts field values) f =
      unfold append_string_list in save_strings-SameLifecycle f field (cleaned values)
  capture-SameLifecycle (cover req tasks tests title) f =
      unfold upsert_coverage in
      save_coverage-SameLifecycle f (strip req) (cleaned tasks) (cleaned tests) (strip title)
  capture-SameLifecycle (summarise step raw) f =
      unfold upsert_step_summary in
      elim (Bool-cases (elem step canonical_steps)) [
        | inl known ↦
            rw known (save_summary-SameLifecycle f step (coerce_entry loads raw "summary"))
        | inr typo ↦ rw typo (SameLifecycle-refl f)
      ]
  capture-SameLifecycle (classify raw) f =
      unfold set_classification in save_verdict-SameLifecycle f (loads raw)
