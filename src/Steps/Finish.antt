-- ===== src/Steps/Finish.antt =====
-- `known_steps`, `journal_finish`, `journal_advance` and `mark_spec_complete`.
use saga_forge.Base.{
  suc, Bool, true, false, not, ◌&&◌, ◌||◌, List, [], ◌∷◌, String, Option, none, some, if◌then◌else◌,
  elem, is_some,
}
use saga_forge.Json.{
  Json, null, str, arr, obj, nil, cons, Dict, empty, entry, get, put, set_default, is_str, truthy,
}
use saga_forge.Text.{after_prefix}
use saga_forge.History.{Log, append_complete, canonical_log, commit_log}
use saga_forge.Context.{
  Folder, Env, Run, wrote, refused, raised, read_ctx, tick, atomic_write, fill_required,
  is_more_advanced, is_shipped, open_ctx, canonical_steps, step_completed_status,
}
use saga_forge.Tasks.{materialize_log, parse_task_markers, tasks_at_100}

-- An entry of a `nodes/` folder, and whether it holds an `_order.yml`.
pub record Node : Type 0 where
  pub name : String
  pub has_order : Bool

abbrev is_hidden : String → Bool
is_hidden name = is_some (after_prefix "_" name) || is_some (after_prefix "." name)

abbrev pub declares : String → List Node → Bool
declares step [] = false
declares step (n ∷ ns) =
    (elem step (n.name ∷ []) && not (is_hidden n.name) && n.has_order) || declares step ns

-- `step in known_steps(…)`, for the entries of the extension's and the project's `nodes/`.
unfoldable pub is_known : List Node → String → Bool
unfolding after_prefix
is_known nodes step = elem step canonical_steps || declares step nodes

abbrev pub or_put : Option String → String → Dict → Dict
or_put none step ctx = ctx
or_put (some status) step ctx = put "currentStep" (str step) (put "status" (str status) ctx)

-- The flip of `journal_advance`, which never goes backward.
unfoldable pub advanced : String → Dict → Dict
unfolding step_completed_status
advanced step ctx =
    if is_more_advanced ctx step then ctx else or_put (step_completed_status step) step ctx

module _ (env : Env) where
  abbrev pub finish_opened :
      Folder → String → Option String → String → (Dict → Dict) → Option (Dict × Log) → Run
  finish_opened f step substep by flip none = refused f
  finish_opened f step substep by flip (some (ctx, log)) = wrote (
      atomic_write (tick f)
        (commit_log (flip ctx) (append_complete log step substep none by (env.now f.ticks))))

  unfoldable pub journal_finish : List Node → Folder → String → String → Option String → Run
  unfolding is_known
  journal_finish nodes f step by substep =
      if is_known nodes step
      then finish_opened f step substep by (λ ctx. ctx) (open_ctx env f)
      else refused f

  unfoldable pub journal_advance : List Node → Folder → String → String → Run
  unfolding is_known advanced
  journal_advance nodes f step by =
      if is_known nodes step
      then finish_opened f step none by (advanced step) (open_ctx env f)
      else refused f

  abbrev pub has_entries : Json → Bool
  has_entries (arr (cons _ _)) = true
  has_entries _ = false

  abbrev pub unverified : Json
  unverified = arr (
      cons (obj (entry "note" (str "finished, unverified") (entry "step" (str "implement") empty)))
        nil)

  -- The caveat of a spec that nothing was verified for.
  abbrev pub note_unverified : Dict → Dict
  note_unverified ctx =
      if has_entries (get "verified" ctx) || truthy (get "concerns" ctx)
      then ctx
      else put "concerns" unverified ctx

  abbrev pub completed : Folder → Dict
  completed f = note_unverified (
      put "currentTask" null (
        put "status" (str "completed")
          (set_default "currentStep" (str "implement") (fill_required env f (read_ctx f)))))

  abbrev pub closed_first : Bool → String → Folder → Log → Log
  closed_first false by f log = log
  closed_first true by f log = append_complete log "implement" none none by (env.now f.ticks)

  abbrev pub ticked : Bool → Folder → Folder
  ticked at_100 f = record f { ticks = if at_100 then suc f.ticks else f.ticks }

  -- What follows the fold of the stragglers: one write, and the events log is removed.
  unfoldable pub promote : Bool → String → Folder → Folder
  promote at_100 by f =
      let log = closed_first at_100 by f (canonical_log (read_ctx f)) in
      record (atomic_write (ticked at_100 f) (commit_log (completed f) log)) { events = none }

  unfoldable pub promote_after : Bool → String → Run → Run
  promote_after at_100 by (raised f) = raised f
  promote_after at_100 by (wrote f) = wrote (promote at_100 by f)
  promote_after at_100 by (refused f) = wrote (promote at_100 by f)

  abbrev pub from_implementing_at_100 : Folder → Bool
  from_implementing_at_100 f =
      is_str (get "status" (read_ctx f)) "implementing" && tasks_at_100 (parse_task_markers f.tasks)

  unfoldable pub mark_spec_complete : String → Folder → Run
  unfolding promote_after
  mark_spec_complete by f =
      if is_shipped (get "status" (read_ctx f))
      then refused f
      else if is_str (get "status" (read_ctx f)) "implemented" || from_implementing_at_100 f
      then promote_after (from_implementing_at_100 f) by (materialize_log env f by)
      else refused f
