-- ===== src/Tasks/Sync.antt =====
-- `sync_tasks`: the backstop that derives the finishes from the ticked boxes of `tasks.md`.
use Prim.Native.String.{compare}
use Prim.Native.Nat.{Ordering}
use saga_forge.Base.{
  suc, Bool, true, false, not, ◌&&◌, List, [], ◌∷◌, String, Option, none, some, if◌then◌else◌, elem,
  keep,
}
use saga_forge.Json.{Json, str, obj, Dict, get, put, is_str, of_opt}
use saga_forge.History.{Log, append_complete, canonical_log, journaled_tasks}
use saga_forge.Context.{
  Folder, Env, Run, wrote, refused, raised, read_ctx, is_shipped, fill_required,
}
use saga_forge.Tasks.Marks.{Markers, parse_task_markers}
use saga_forge.Tasks.Fold.{distinct, tasks_at_100}
use saga_forge.Tasks.Journal.{Draft, publish, materialize_log}

-- `at >= best_at`, by code points.
abbrev at_least : String → String → Bool
at_least s t = elim (compare s t) [ Ordering.lt ↦ false | _ ↦ true ]

abbrev is_later : Json → Option (String × String) → Bool
is_later (str at) none = true
is_later (str at) (some (_, best)) = at_least at best
is_later _ best = false

abbrev text_or : Json → String
text_or (str s) = s
text_or _ = ""

abbrev is_finish_of : List String → Json → Dict → Bool
is_finish_of done (str task) d = elem task done && is_str (get "kind" d) "complete"
is_finish_of done _ d = false

abbrev last_step : List String → Json → Option (String × String) → Option (String × String)
last_step done (obj d) best =
    if is_finish_of done (get "task" d) d && is_later (get "at" d) best
    then some (text_or (get "task" d), text_or (get "at" d))
    else best
last_step done _ best = best

last_from : List String → Log → Option (String × String) → Option (String × String)
last_from done [] best = best
last_from done (e ∷ log) best = last_from done log (last_step done e best)

abbrev last_of : List String → Option String
last_of [] = none
last_of (s ∷ []) = some s
last_of (s ∷ t ∷ ss) = last_of (t ∷ ss)

abbrev id_or_last : List String → Option (String × String) → Option String
id_or_last done none = last_of done
id_or_last done (some (task, at)) = some task

-- `_last_finished(log, done)`; `None` where `done` is empty, as its caller has it.
unfoldable pub last_finished : Log → List String → Option String
unfolding last_from
last_finished log done = id_or_last done (last_from done log none)

abbrev pub current_task : List String → Log → List String → Option String
current_task [] log done = last_finished log done
current_task (id ∷ _) log done = some id

module _ (env : Env) where
  -- The finishes of the backstop, one clock reading each.
  unfoldable pub append_fresh : String → List String → Draft → Draft
  append_fresh by [] d = d
  append_fresh by (task ∷ tasks) d = append_fresh by tasks (record d {
    log = append_complete d.log "implement" none (some task) by (env.now d.ticks);
    ticks = suc d.ticks;
  })

  abbrev pub close_all : Bool → String → Draft → Draft
  close_all false by d = d
  close_all true by d = record d {
    log = append_complete d.log "implement" none none by (env.now d.ticks);
    ticks = suc d.ticks;
  }

  abbrev pub sync_context : Markers → String → Log → Dict → Dict
  sync_context m final log ctx =
      let all = distinct m.all_ids in
      let done = distinct m.done_ids in
      put "currentTask" (of_opt (current_task (keep (λ id. not (elem id done)) all) log done)) (
        put "status" (str (if tasks_at_100 m then final else "implementing"))
          (put "currentStep" (str "implement") ctx))

  -- The part of `sync_tasks` behind the fold of the appended lines, before its write.
  abbrev pub sync_opened : Folder → Markers → String → Draft
  sync_opened f m final = record {
    ctx = sync_context m final (canonical_log (read_ctx f)) (fill_required env f (read_ctx f));
    log = canonical_log (read_ctx f);
    ticks = f.ticks;
  }

  abbrev pub sync_fresh : Folder → Markers → List String
  sync_fresh f m =
      keep (λ id. not (elem id (journaled_tasks (canonical_log (read_ctx f)))))
        (distinct m.done_ids)

  unfoldable pub sync_draft : Folder → Markers → String → String → Draft
  unfolding last_finished
  sync_draft f m final by =
      close_all (tasks_at_100 m) by (append_fresh by (sync_fresh f m) (sync_opened f m final))

  unfoldable pub sync_folded : Folder → Markers → String → String → Folder
  unfolding sync_draft
  sync_folded f m final by = publish f (sync_draft f m final by)

  abbrev pub sync_markers : Folder → Markers → String → String → List String → Run
  sync_markers f m final by [] = refused f
  sync_markers f m final by (_ ∷ _) = wrote (sync_folded f m final by)

  unfoldable pub sync_after : Run → String → String → Run
  unfolding sync_folded
  sync_after (raised f) final by = raised f
  sync_after (wrote f) final by =
      let m = parse_task_markers f.tasks in sync_markers f m final by m.all_ids
  sync_after (refused f) final by =
      let m = parse_task_markers f.tasks in sync_markers f m final by m.all_ids

  unfoldable pub sync_tasks : Folder → String → String → Run
  unfolding sync_after
  sync_tasks f final by =
      if is_shipped (get "status" (read_ctx f))
      then refused f
      else sync_after (materialize_log env f by) final by
