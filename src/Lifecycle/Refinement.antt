-- ===== src/Lifecycle/Refinement.antt =====
-- Sequences of calls and edits, and the moves of the lifecycle machine.
use saga_forge.Base.{Bool, true, ◌&&◌, List, [], ◌∷◌, String, Option, some, ◌≡◌, refl, arith}
use saga_forge.Context.{Folder, Env, left_by, step_completed_status}
use saga_forge.Capture.Commands.{capture-SameLifecycle}
use saga_forge.Lifecycle.Commands.{
  Command, update, finish_step, advance, mark_complete, finish_task, append_task, close,
  materialize, sync, record_capture, Setting, perform, Event, call, edit_tasks, edit_spec, happen,
  happen_all,
}
use saga_forge.Lifecycle.Machine.{point_of, Completes, Moves, Moves-trans, stay}
use saga_forge.Lifecycle.TaskMoves.{
  journal_task_finish-Moves, append_task_log-Moves, materialize_log-Moves, close_task-Moves,
}
use saga_forge.Lifecycle.SyncMoves.{sync_tasks-Moves}
use saga_forge.Lifecycle.StepMoves.{
  update_context-Moves, journal_finish-Moves, journal_advance-Moves,
}
use saga_forge.Lifecycle.ShipMoves.{mark_spec_complete-Moves}

-- The calls bring in such statuses and steps only.
module _ (statuses : Option String → Bool) (steps : String → Bool) where
  abbrev pub allows : Command → Bool
  allows (update w) = statuses w.status && steps w.step
  allows (advance step by) = statuses (step_completed_status step)
  allows (mark_complete by) = statuses (some "completed")
  allows (sync final by) = statuses (some final)
  allows (finish_step step by substep) = true
  allows (finish_task task by did files) = true
  allows (append_task task by did files) = true
  allows (close task by did files) = true
  allows (materialize by) = true
  allows (record_capture c) = true

  abbrev pub allows_event : Event → Bool
  allows_event (call env c) = allows c
  allows_event (edit_tasks text) = true
  allows_event (edit_spec text) = true

  abbrev pub allows_all : List Event → Bool
  allows_all [] = true
  allows_all (e ∷ es) = allows_event e && allows_all es

  module _ (setting : Setting) where
    perform-Moves :
        (env : Env) (c : Command) (f : Folder)
        → allows c ≡ true
        → Moves statuses steps (point_of f) (point_of (left_by (perform setting env c f)))
    unfolding perform
    perform-Moves env (update w) f h = update_context-Moves env w f (ground arith) (ground arith)
    perform-Moves env (finish_step step by substep) f h =
        journal_finish-Moves env setting.nodes f step by substep
    perform-Moves env (advance step by) f h = journal_advance-Moves env setting.nodes f step by h
    perform-Moves env (mark_complete by) f h = mark_spec_complete-Moves env h by f
    perform-Moves env (finish_task task by did files) f h =
        journal_task_finish-Moves env f task by did files
    perform-Moves env (append_task task by did files) f h =
        append_task_log-Moves env f task by did files
    perform-Moves env (close task by did files) f h = close_task-Moves env f task by did files
    perform-Moves env (materialize by) f h = materialize_log-Moves env f by
    perform-Moves env (sync final by) f h = sync_tasks-Moves env final by h f
    perform-Moves env (record_capture c) f h =
        let same = capture-SameLifecycle setting.coerce setting.loads env c f in
        stay same.status same.step

    happen-Moves :
        (e : Event) (f : Folder)
        → allows_event e ≡ true
        → Moves statuses steps (point_of f) (point_of (happen setting e f))
    unfolding happen
    happen-Moves (call env c) f h = perform-Moves env c f h
    happen-Moves (edit_tasks text) f h = stay refl refl
    happen-Moves (edit_spec text) f h = stay refl refl

    -- The moves of a whole sequence
    pub happen_all-Moves :
        (es : List Event) (f : Folder)
        → allows_all es ≡ true
        → Moves statuses steps (point_of f) (point_of (happen_all setting es f))
    unfolding happen_all
    happen_all-Moves [] f h = stay refl refl
    happen_all-Moves (e ∷ es) f h =
        Moves-trans (happen-Moves e f (ground arith))
          (happen_all-Moves es (happen setting e f) (ground arith))

    -- What is more at a call of `mark_spec_complete`
    abbrev pub Guards : Event → Folder → Folder → Type 0
    Guards (call env (mark_complete by)) f g = Completes (point_of f) (point_of g)
    Guards _ f g = Unit {0}

    -- Each event moves the folder that it finds along the machine.
    abbrev pub Follows : List Event → Folder → Type 0
    Follows [] f = Unit {0}
    Follows (e ∷ es) f =
        Moves statuses steps (point_of f) (point_of (happen setting e f))
        × Guards e f (happen setting e f)
        × Follows es (happen setting e f)
