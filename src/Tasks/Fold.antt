-- ===== src/Tasks/Fold.antt =====
-- `_upsert_task_summary`, `_tasks_at_100`, `_fold_task_finish` and `_maybe_close_implement`.
use saga_forge.Base.{
  Bool, true, false, not, ◌&&◌, List, [], ◌∷◌, String, Option, none, some, if◌then◌else◌, elem,
  ◌==◌, length, str_eq, map,
}
use saga_forge.Json.{Json, str, arr, obj, Dict, of_list, get, put, dict_or_empty}
use saga_forge.History.{Log, append_complete, has_complete, journaled_tasks}
use saga_forge.Context.{is_shipped, is_terminal}
use saga_forge.Tasks.Marks.{Markers}

abbrev put_did : Option String → Dict → Dict
put_did none d = d
put_did (some did) d = if str_eq did "" then d else put "did" (str did) d

abbrev pub strings : List String → Json
strings ss = arr (of_list (map str ss))

abbrev put_files : List String → Dict → Dict
put_files [] d = d
put_files (file ∷ files) d = put "files" (strings (file ∷ files)) d

-- One entry of `task_summaries`, merged onto what is there.
unfoldable pub summary : Json → Option String → List String → Dict
summary existing did files =
    put_files files (put_did did (put "status" (str "DONE") (dict_or_empty existing)))

unfoldable pub upsert_task_summary : Dict → String → Option String → List String → Dict
unfolding summary
upsert_task_summary ctx task did files =
    let summaries = dict_or_empty (get "task_summaries" ctx) in
    put "task_summaries" (obj (put task (obj (summary (get task summaries) did files)) summaries))
      ctx

abbrev pub is_nil : List String → Bool
is_nil [] = true
is_nil (_ ∷ _) = false

abbrev pub tasks_at_100 : Markers → Bool
tasks_at_100 m = not (is_nil m.all_ids) && length m.done_ids == length m.all_ids

abbrev pub fold_status : Markers → Dict → Dict
fold_status m ctx =
    if is_terminal (get "status" ctx)
    then ctx
    else put "status" (str (if tasks_at_100 m then "implemented" else "implementing")) ctx

-- The step and the task that a finish makes current.
abbrev pub at_task : String → Dict → Dict
at_task task ctx = put "currentTask" (str task) (put "currentStep" (str "implement") ctx)

-- The context of `_fold_task_finish`; its log is `append_complete log "implement" none task …`.
unfoldable pub fold_context : Markers → String → Option String → List String → Dict → Dict
unfolding upsert_task_summary
fold_context m task did files ctx =
    upsert_task_summary (fold_status m (at_task task ctx)) task did files

-- `list(dict.fromkeys(ids))`: the first of each.
unfoldable pub distinct_from : List String → List String → List String
distinct_from seen [] = []
distinct_from seen (id ∷ ids) =
    let rest = distinct_from (id ∷ seen) ids in
    let skip = distinct_from seen ids in if elem id seen then skip else id ∷ rest

unfoldable pub distinct : List String → List String
unfolding distinct_from
distinct = distinct_from []

-- `set(ids) <= set(others)`
abbrev pub all_in : List String → List String → Bool
all_in [] others = true
all_in (id ∷ ids) others = elem id others && all_in ids others

unfoldable pub all_done : Markers → Log → Bool
unfolding distinct
all_done m log =
    not (is_nil m.all_ids)
    && length (distinct m.all_ids) == length m.all_ids
    && tasks_at_100 m
    && all_in (distinct m.all_ids) (journaled_tasks log)

-- `_maybe_close_implement` closes the step.
abbrev pub closes_implement : Markers → Log → Bool
closes_implement m log = all_done m log && not (has_complete log "implement" none)

abbrev pub close_log : Markers → String → String → Log → Log
close_log m by now log =
    if closes_implement m log then append_complete log "implement" none none by now else log

abbrev set_implemented : Dict → Dict
set_implemented ctx =
    if is_shipped (get "status" ctx) then ctx else put "status" (str "implemented") ctx

abbrev pub close_context : Markers → Log → Dict → Dict
close_context m log ctx = if closes_implement m log then set_implemented ctx else ctx
