-- ===== src/Derive/Files.antt =====
-- `_infer` and `derive`. Whether there is a plan.md is an argument: no other call looks at it.
use saga_forge.Base.{
  suc, Bool, true, false, not, ◌&&◌, List, [], ◌∷◌, ◌++◌, String, Option, none, some, if◌then◌else◌,
  str_eq, elem, keep,
}
use saga_forge.Json.{str, obj, put, truthy, of_opt}
use saga_forge.History.{
  Log, canonical_log, complete_entry, start_entry, has_complete, has_step_start, journaled_tasks,
}
use saga_forge.Context.{Folder, Env, Run, wrote, refused, read_ctx, fill_required, is_more_advanced}
use saga_forge.Tasks.{
  Markers, parse_task_markers, is_nil, all_in, distinct, Draft, publish, current_task,
}

-- `bool(ids) and set(done) >= set(ids)`
abbrev pub covered : Markers → Bool
covered m = not (is_nil m.all_ids) && all_in (distinct m.all_ids) m.done_ids

abbrev pub infer_without_tasks : Bool → Option String → Option (String × String)
infer_without_tasks true spec = some ("plan", "planned")
infer_without_tasks false (some _) = some ("specify", "specified")
infer_without_tasks false none = none

abbrev pub infer_from : Option String → Bool → Option String → Option (String × String)
infer_from none plan spec = infer_without_tasks plan spec
infer_from (some text) plan spec = some (
    if covered (parse_task_markers (some text))
    then ("implement", "implemented")
    else ("tasks", "ready-to-implement"))

-- `_infer`: the step and the status that the documents speak for.
unfoldable pub infer : Bool → Folder → Option (String × String)
infer plan f = infer_from f.tasks plan f.spec

module _ (env : Env) (by : String) where
  -- One finish per ticked task that the log does not name, each with its own reading of the clock.
  unfoldable pub derive_finishes : List String → Draft → Draft
  derive_finishes [] d = d
  derive_finishes (task ∷ tasks) d = derive_finishes tasks (record d {
    log = d.log ++ complete_entry "implement" none (some task) by (env.now d.ticks) ∷ [];
    ticks = suc d.ticks;
  })

  abbrev pub derive_close : Bool → Draft → Draft
  derive_close false d = d
  derive_close true d = record d {
    log = d.log ++ complete_entry "implement" none none by (env.now d.ticks) ∷ [];
    ticks = suc d.ticks;
  }

  abbrev pub set_current : Markers → Draft → Draft
  set_current m d =
      let done = distinct m.done_ids in
      record d {
        ctx =
            put "currentTask"
              (of_opt
                (current_task (keep (λ id. not (elem id done)) (distinct m.all_ids)) d.log done))
              d.ctx;
      }

  unfoldable pub derive_tasks : Markers → Draft → Draft
  unfolding derive_finishes
  derive_tasks m d =
      let fresh = keep (λ id. not (elem id (journaled_tasks d.log))) (distinct m.done_ids) in
      let d' = set_current m (derive_finishes fresh d) in
      derive_close (covered m && not (has_complete d'.log "implement" none)) d'

  abbrev pub derive_start : String → String → Log → Log
  derive_start step at log =
      if has_step_start log step none then log else log ++ start_entry step none by at ∷ []

  abbrev pub derive_open : Folder → String → String → Draft
  derive_open f step status = record {
    ctx =
        put "status" (str status) (put "currentStep" (str step) (fill_required env f (read_ctx f)));
    log = derive_start step (env.now f.ticks) (canonical_log (read_ctx f));
    ticks = suc f.ticks;
  }

  abbrev pub derive_draft : Folder → String → String → Draft
  derive_draft f step status =
      if str_eq step "implement"
      then derive_tasks (parse_task_markers f.tasks) (derive_open f step status)
      else derive_open f step status

  unfoldable pub derive_inferred : Option (String × String) → Folder → Run
  unfolding derive_tasks
  derive_inferred none f = refused f
  derive_inferred (some (step, status)) f =
      if truthy (obj (read_ctx f)) && is_more_advanced (read_ctx f) step
      then refused f
      else wrote (publish f (derive_draft f step status))

  unfoldable pub derive : Bool → Folder → Run
  unfolding infer derive_inferred
  derive plan f = derive_inferred (infer plan f) f
