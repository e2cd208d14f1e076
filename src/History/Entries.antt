-- ===== src/History/Entries.antt =====
-- `canonical_log`, `commit_log`, `append_complete` and the predicates on log entries, from
-- `_journaled_tasks` to `_has_complete`.
use saga_forge.Base.{
  Bool, true, false, not, ◌&&◌, ◌||◌, List, [], ◌∷◌, ◌++◌, String, Option, none, some,
  if◌then◌else◌, any,
}
use saga_forge.Json.{
  Json, str, arr, obj, Dict, empty, entry, to_list, of_list, json_eq, is_null, is_str, is_opt,
  of_opt, get, put, pop,
}

abbrev pub Log : Type 0
Log = List Json

pub data Kind : Type 0 where
  start complete : Kind

-- `e.get("from") or {}`. A value there that is neither falsy nor an object makes Python raise;
-- no writer of the log makes one, and it counts as `{}` here.
abbrev pub origin : Json → Dict
origin (obj d) = d
origin _ = empty

-- A self-loop of the legacy log: it ends where it began.
abbrev pub is_self_loop : Dict → Dict → Bool
is_self_loop from d =
    json_eq (get "step" from) (get "step" d) && json_eq (get "substep" from) (get "substep" d)

unfoldable pub entry_kind : Dict → Kind
entry_kind d =
    if is_str (get "kind" d) "start"
    then start
    else if is_str (get "kind" d) "complete"
    then complete
    else if is_self_loop (origin (get "from" d)) d
    then complete
    else start

abbrev pub is_complete : Kind → Bool
is_complete complete = true
is_complete start = false

abbrev pub is_step_level : Dict → Bool
is_step_level d = is_null (get "substep" d) && is_null (get "task" d)

abbrev pub is_per_task : Dict → Bool
is_per_task d = not (is_null (get "task" d))

-- `_has_complete`'s `_matches`: without a task, the step-level complete only.
abbrev pub matches_task : Option String → Dict → Bool
matches_task none d = is_step_level d
matches_task (some task) d = is_str (get "task" d) task || is_str (get "substep" d) task

abbrev pub closes : String → Option String → Json → Bool
closes step task (obj d) =
    is_str (get "step" d) step && matches_task task d && is_complete (entry_kind d)
closes step task _ = false

unfoldable pub has_complete : Log → String → Option String → Bool
has_complete log step task = any (closes step task) log

abbrev pub opens : String → Option String → Json → Bool
opens step substep (obj d) =
    is_str (get "step" d) step
    && is_opt (get "substep" d) substep
    && not (is_per_task d)
    && not (is_complete (entry_kind d))
opens step substep _ = false

unfoldable pub has_step_start : Log → String → Option String → Bool
has_step_start log step substep = any (opens step substep) log

abbrev pub task_of : Json → List String → List String
task_of (str t) ts = t ∷ ts
task_of _ ts = ts

abbrev pub add_task : Json → List String → List String
add_task (obj d) ts = task_of (get "task" d) ts
add_task _ ts = ts

-- The ids of `_journaled_tasks`, a set, in the order of the log.
unfoldable pub journaled_tasks : Log → List String
journaled_tasks [] = []
journaled_tasks (e ∷ log) = add_task e (journaled_tasks log)

abbrev pub with_task : Option String → Dict → Dict
with_task none d = d
with_task (some task) d = entry "task" (str task) d

-- The keys of a finish, in the order in which they are written.
abbrev pub complete_entry : String → Option String → Option String → String → String → Json
complete_entry step substep task by at = obj (
    entry "step" (str step) (
      entry "substep" (of_opt substep) (
        with_task task
          (entry "kind" (str "complete") (entry "by" (str by) (entry "at" (str at) empty))))))

-- `task if task is not None else substep`
abbrev pub finish_key : Option String → Option String → Option String
finish_key substep none = substep
finish_key substep (some task) = some task

unfoldable pub append_complete :
    Log → String → Option String → Option String → String → String → Log
append_complete log step substep task by at =
    if has_complete log step (finish_key substep task)
    then log
    else log ++ complete_entry step substep task by at ∷ []

-- The `start` that `update_context` appends.
abbrev pub start_entry : String → Option String → String → String → Json
start_entry step substep by at = obj (
    entry "step" (str step) (
      entry "substep" (of_opt substep)
        (entry "kind" (str "start") (entry "by" (str by) (entry "at" (str at) empty)))))

abbrev pub legacy_log : Json → Log
legacy_log (arr vs) = to_list vs
legacy_log _ = []

abbrev pub log_or : Json → Json → Log
log_or (arr vs) legacy = to_list vs
log_or _ legacy = legacy_log legacy

unfoldable pub canonical_log : Dict → Log
canonical_log ctx = log_or (get "history" ctx) (get "transitions" ctx)

unfoldable pub commit_log : Dict → Log → Dict
commit_log ctx log = pop "stepHistory" (pop "transitions" (put "history" (arr (of_list log)) ctx))
