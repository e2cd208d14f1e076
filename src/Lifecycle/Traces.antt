-- ===== src/Lifecycle/Traces.antt =====
-- What holds along every sequence of calls and edits.
use saga_forge.Base.{List, [], ◌∷◌, ◌≡◌, sym, Extends, subst}
use saga_forge.History.{Log}
use saga_forge.History.Grows.{Grows, same, Grows-trans, Grows-Extends, Grows-IsUnique, IsUnique}
use saga_forge.Context.{Folder, Env, left_by}
use saga_forge.Context.Written.{log_of}
use saga_forge.Tasks.Growth.{
  journal_task_finish-Grows, append_task_log-log, materialize_log-Grows, close_task-Grows,
}
use saga_forge.Tasks.SyncGrowth.{sync_tasks-Grows}
use saga_forge.Steps.Growth.{
  update_context-Grows, journal_finish-Grows, journal_advance-Grows, mark_spec_complete-Grows,
}
use saga_forge.Capture.Commands.{capture-SameLifecycle}
use saga_forge.Capture.Lifecycle.{SameLifecycle}
use saga_forge.Lifecycle.Commands.{
  Command, update, finish_step, advance, mark_complete, finish_task, append_task, close,
  materialize, sync, record_capture, Setting, perform, Event, call, edit_tasks, edit_spec, happen,
  happen_all,
}

Grows-eq : {a b : Log} → b ≡ a → Grows a b
Grows-eq {a} e = subst (Grows a) (sym e) same

module _ (setting : Setting) where
  perform-Grows :
      (env : Env) (c : Command) (f : Folder)
      → Grows (log_of f) (log_of (left_by (perform setting env c f)))
  unfolding perform
  perform-Grows env (update w) f = update_context-Grows env w f
  perform-Grows env (finish_step step by substep) f =
      journal_finish-Grows env setting.nodes f step by substep
  perform-Grows env (advance step by) f = journal_advance-Grows env setting.nodes f step by
  perform-Grows env (mark_complete by) f = mark_spec_complete-Grows env by f
  perform-Grows env (finish_task task by did files) f =
      journal_task_finish-Grows env f task by did files
  perform-Grows env (append_task task by did files) f =
      Grows-eq (append_task_log-log env f task by did files)
  perform-Grows env (close task by did files) f = close_task-Grows env f task by did files
  perform-Grows env (materialize by) f = materialize_log-Grows env f by
  perform-Grows env (sync final by) f = sync_tasks-Grows env f final by
  perform-Grows env (record_capture c) f =
      Grows-eq (SameLifecycle.log (capture-SameLifecycle setting.coerce setting.loads env c f))

  happen-Grows : (e : Event) (f : Folder) → Grows (log_of f) (log_of (happen setting e f))
  unfolding happen
  happen-Grows (call env c) f = perform-Grows env c f
  happen-Grows (edit_tasks text) f = same
  happen-Grows (edit_spec text) f = same

  happen_all-Grows :
      (es : List Event) (f : Folder) → Grows (log_of f) (log_of (happen_all setting es f))
  unfolding happen_all
  happen_all-Grows [] f = same
  happen_all-Grows (e ∷ es) f =
      Grows-trans (happen-Grows e f) (happen_all-Grows es (happen setting e f))

  -- Whatever is called and edited, in whatever order, the lifecycle log that a reader of the folder
  -- sees only grows at its end: the log from before stands whole in front of the log from after.
  pub happen_all-Extends :
      (es : List Event) (f : Folder) → Extends (log_of f) (log_of (happen_all setting es f))
  happen_all-Extends es f = Grows-Extends (happen_all-Grows es f)

  -- If no boundary of a step, substep or task is closed twice in the log, then none is after
  -- any calls and edits.
  pub happen_all-IsUnique :
      (es : List Event) (f : Folder)
      → IsUnique (log_of f)
      → IsUnique (log_of (happen_all setting es f))
  happen_all-IsUnique es f u = Grows-IsUnique (happen_all-Grows es f) u
