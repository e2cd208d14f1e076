-- ===== src/Context/Store.antt =====
-- `_guard_append_only`, `atomic_write`, `fill_required`, `_open_ctx_or_none` and
-- `_is_more_advanced`. A write succeeds here: a failing disk is not modelled.
use saga_forge.Base.{Bool, not, ◌||◌, String, Option, none, some, str_eq, if◌then◌else◌}
use saga_forge.Json.{
  Json, null, str, arr, obj, Items, Dict, to_list, of_list, get, put, set_default, truthy, is_str,
}
use saga_forge.History.{Log, canonical_log, splice}
use saga_forge.Context.State.{
  Stored, document, Folder, Env, read_ctx, branch_or_main, is_shipped, is_past, binding_order,
}
use saga_forge.Context.Name.{is_placeholder_json, fallback_name, spec_name}

-- The guard, by what the file on disk and the outgoing context hold under `history`. A value on
-- disk that is no list is kept beside the new log.
abbrev pub guarded : Json → Items → Dict → Dict
guarded null outgoing ctx = ctx
guarded (arr existing) outgoing ctx =
    put "history" (arr (of_list (splice (to_list existing) (to_list outgoing)))) ctx
guarded other outgoing ctx = put "historyQuarantined" other ctx

abbrev pub history_on_disk : Stored → Json
history_on_disk (document (obj d)) = get "history" d
history_on_disk _ = null

abbrev pub guard_with : Json → Json → Dict → Dict
guard_with disk (arr outgoing) ctx = guarded disk outgoing ctx
guard_with disk _ ctx = ctx

unfoldable pub guard_append_only : Stored → Dict → Dict
guard_append_only disk ctx = guard_with (history_on_disk disk) (get "history" ctx) ctx

unfoldable pub atomic_write : Folder → Dict → Folder
atomic_write f ctx = record f { context = document (obj (guard_append_only f.context ctx)) }

-- The name is still open: none is recorded, or a placeholder, or the fallback.
abbrev pub is_undecided : Env → Json → Bool
is_undecided env v = not (truthy v) || is_placeholder_json v || is_str v (fallback_name env)

abbrev pub set_name : String → Dict → Dict
set_name resolved ctx = if str_eq resolved "" then ctx else put "specName" (str resolved) ctx

abbrev pub refresh_name : Env → Option String → Dict → Dict
refresh_name env spec ctx =
    if is_undecided env (get "specName" ctx) then set_name (spec_name env spec) ctx else ctx

unfoldable pub fill_required : Env → Folder → Dict → Dict
fill_required env f ctx =
    set_default "branch" (str (branch_or_main env.branch))
      (refresh_name env f.spec (set_default "workflow" (str "speckit") ctx))

-- `_open_ctx_or_none`: nothing for a spec that is shipped.
unfoldable pub open_ctx : Env → Folder → Option (Dict × Log)
open_ctx env f =
    let ctx = read_ctx f in
    if is_shipped (get "status" ctx)
    then none
    else some (fill_required env f ctx, canonical_log ctx)

unfoldable pub is_more_advanced : Dict → String → Bool
unfolding is_past
is_more_advanced ctx step = is_past (binding_order step) (get "status" ctx) (get "currentStep" ctx)
