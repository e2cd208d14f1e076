-- ===== src/Capture/Writers.antt =====
-- The writers of `capture.py`. `loads` is `json.loads`, `none` where it raises, and `coerce` stands
-- for `_coerce_value`, whose number parsing is Python's. Both are parameters.
use saga_forge.Base.{
  Bool, true, false, not, ◌&&◌, ◌||◌, List, [], ◌∷◌, String, Char, Option, none, some,
  if◌then◌else◌, elem, str_eq, map, is_some,
}
use saga_forge.Json.{
  dict_or_empty, list_or_empty, Json, str, arr, obj, Dict, empty, entry, of_list, get, put,
  is_one_of,
}
use saga_forge.Text.{strip, is, after_prefix}
use saga_forge.Context.{
  Folder, Env, Run, wrote, refused, read_ctx, atomic_write, fill_required, canonical_steps,
}
use saga_forge.Capture.Merge.{
  cleaned, merged_names, merged_entries, Skip, cleaned_skips, merge_skips,
}

-- `PROTECTED_SET_KEYS`
abbrev pub is_protected : String → Bool
is_protected k = elem k ("history" ∷ "transitions" ∷ "status" ∷ "currentStep" ∷ [])

-- `pair.split("=", 1)`
abbrev pub onto_key : Char → Option (String × String) → Option (String × String)
onto_key c none = none
onto_key c (some (k, v)) = some (String.◌∷◌ c k, v)

unfoldable pub split_pair : String → Option (String × String)
split_pair String.[] = none
split_pair (String.◌∷◌ c s) = if is c b'=' then some (String.[], s) else onto_key c (split_pair s)

-- The context that every capture writer starts from.
abbrev pub base : Env → Folder → Dict
base env f = fill_required env f (read_ctx f)

module _ (coerce : String → Json) where
  abbrev pub set_key : String → String → Dict → Dict
  set_key key raw ctx =
      if str_eq key ""
      then ctx
      else if is_protected key
      then ctx
      else put key (coerce (strip raw)) ctx

  abbrev pub set_split : Option (String × String) → Dict → Dict
  set_split none ctx = ctx
  set_split (some (key, raw)) ctx = set_key (strip key) raw ctx

  unfoldable pub set_pairs : List String → Dict → Dict
  unfolding split_pair strip
  set_pairs [] ctx = ctx
  set_pairs (pair ∷ pairs) ctx = set_pairs pairs (set_split (split_pair pair) ctx)

module _ (loads : String → Option Json) where
  abbrev pub names_itself : Json → Bool
  names_itself (str s) = not (str_eq (strip s) "")
  names_itself _ = false

  abbrev pub object_or : Option Json → String → String → Dict
  object_or (some (obj d)) key text =
      if names_itself (get key d) then d else entry key (str text) empty
  object_or _ key text = entry key (str text) empty

  abbrev pub coerce_text : String → String → Option Dict
  coerce_text text key =
      if str_eq text ""
      then none
      else if is_some (after_prefix "{" text)
      then some (object_or (loads text) key text)
      else some (entry key (str text) empty)

  -- `_coerce_entry`
  unfoldable pub coerce_entry : String → String → Option Dict
  unfolding strip after_prefix
  coerce_entry raw key = coerce_text (strip raw) key

  abbrev pub add_entry : Option Dict → List Json → List Json
  add_entry none es = es
  add_entry (some d) es = obj d ∷ es

  unfoldable pub coerced : List String → String → List Json
  unfolding coerce_entry
  coerced [] key = []
  coerced (raw ∷ raws) key = add_entry (coerce_entry raw key) (coerced raws key)

-- `merged.update(entry)`
unfoldable pub update_dict : Dict → Dict → Dict
update_dict d empty = d
update_dict d (entry k v e) = update_dict (put k v d) e

module _ (env : Env) where
  -- A write of one field.
  abbrev pub save : Folder → String → Json → Run
  save f field v = wrote (atomic_write f (put field v (base env f)))

  unfoldable pub set_fields : (String → Json) → Folder → List String → Run
  unfolding set_pairs
  set_fields coerce f pairs = wrote (atomic_write f (set_pairs coerce pairs (base env f)))

  abbrev pub save_names : Folder → String → List String → Run
  save_names f slot [] = refused f
  save_names f slot (n ∷ names) =
      let block = dict_or_empty (get "livingSpecs" (base env f)) in
      save f "livingSpecs"
        (obj (put slot (arr (of_list (merged_names (get slot block) (n ∷ names)))) block))

  unfoldable pub set_living_specs_loaded : Folder → List String → Run
  unfolding merged_names cleaned
  set_living_specs_loaded f names = save_names f "loaded" (cleaned names)

  unfoldable pub set_living_specs_synced : Folder → List String → Run
  unfolding merged_names cleaned
  set_living_specs_synced f names = save_names f "synced" (cleaned names)

  abbrev pub save_skips : Folder → List Skip → Run
  save_skips f [] = refused f
  save_skips f (s ∷ skips) =
      let block = dict_or_empty (get "livingSpecs" (base env f)) in
      save f "livingSpecs" (
        obj (
          put "skipped"
            (arr (of_list (merge_skips (list_or_empty (get "skipped" block)) (s ∷ skips)))) block))

  unfoldable pub set_living_specs_skipped : Folder → List Skip → Run
  unfolding merge_skips cleaned_skips
  set_living_specs_skipped f skips = save_skips f (cleaned_skips skips)

  module _ (loads : String → Option Json) where
    abbrev pub save_entries : Folder → String → String → Bool → List Json → Run
    save_entries f field key replace [] = refused f
    save_entries f field key replace (e ∷ es) =
        save f field (arr (of_list (merged_entries key replace (get field (base env f)) (e ∷ es))))

    unfoldable pub append_capture_entries : Folder → String → String → List String → Bool → Run
    unfolding merged_entries coerced
    append_capture_entries f field key raws replace =
        save_entries f field key replace (coerced loads raws key)

    abbrev pub save_summary : Folder → String → Option Dict → Run
    save_summary f step none = refused f
    save_summary f step (some e) =
        let summaries = dict_or_empty (get "step_summaries" (base env f)) in
        save f "step_summaries"
          (obj (put step (obj (update_dict (dict_or_empty (get step summaries)) e)) summaries))

    unfoldable pub upsert_step_summary : Folder → String → String → Run
    unfolding coerce_entry update_dict
    upsert_step_summary f step raw =
        if elem step canonical_steps
        then save_summary f step (coerce_entry loads raw "summary")
        else refused f

    abbrev pub is_verdict : Json → Bool
    is_verdict v = is_one_of v ("simple" ∷ "normal" ∷ "oversized" ∷ [])

    abbrev pub save_verdict : Folder → Option Json → Option Run
    save_verdict f (some (obj d)) =
        if is_verdict (get "verdict" d) then some (save f "classification" (obj d)) else none
    save_verdict f _ = none

    -- `none` is the `ValueError` of a value that is no classification.
    unfoldable pub set_classification : Folder → String → Option Run
    set_classification f raw = save_verdict f (loads raw)

  abbrev pub save_strings : Folder → String → List String → Run
  save_strings f field [] = refused f
  save_strings f field (v ∷ vs) =
      save f field (arr (of_list (merged_names (get field (base env f)) (v ∷ vs))))

  unfoldable pub append_string_list : Folder → String → List String → Run
  unfolding merged_names cleaned
  append_string_list f field values = save_strings f field (cleaned values)

  abbrev pub put_strings : String → List String → Dict → Dict
  put_strings key [] d = d
  put_strings key (s ∷ ss) d = put key (arr (of_list (map str (s ∷ ss)))) d

  abbrev pub put_title : String → Dict → Dict
  put_title title d = if str_eq title "" then d else put "title" (str title) d

  abbrev pub nothing : List String → Bool
  nothing [] = true
  nothing (_ ∷ _) = false

  abbrev pub coverage_entry : Json → List String → List String → String → Dict
  coverage_entry existing tasks tests title =
      put_strings "tests" tests
        (put_strings "tasks" tasks (put_title title (dict_or_empty existing)))

  abbrev pub save_coverage : Folder → String → List String → List String → String → Run
  save_coverage f req tasks tests title =
      if str_eq req "" || (nothing tasks && nothing tests && str_eq title "")
      then refused f
      else let coverage = dict_or_empty (get "coverage" (base env f)) in
        save f "coverage"
          (obj (put req (obj (coverage_entry (get req coverage) tasks tests title)) coverage))

  -- `upsert_coverage`, its two lists given as lists of texts; no title is an empty one.
  unfoldable pub upsert_coverage : Folder → String → List String → List String → String → Run
  unfolding cleaned strip
  upsert_coverage f req tasks tests title =
      save_coverage f (strip req) (cleaned tasks) (cleaned tests) (strip title)
