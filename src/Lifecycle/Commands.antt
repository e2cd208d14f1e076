-- ===== src/Lifecycle/Commands.antt =====
-- The calls that `_main` dispatches to.
use saga_forge.Base.{List, [], ◌∷◌, String, Option}
use saga_forge.Json.{Json}
use saga_forge.Context.{Folder, Env, Run, left_by}
use saga_forge.Tasks.{journal_task_finish, append_task_log, materialize_log, sync_tasks, close_task}
use saga_forge.Steps.{
  Write, Node, update_context, journal_finish, journal_advance, mark_spec_complete,
}
use saga_forge.Capture.Commands.{Capture, capture}

pub data Command : Type 0 where
  update : Write → Command
  finish_step : (step by : String) → Option String → Command
  advance : (step by : String) → Command
  mark_complete : (by : String) → Command
  finish_task append_task close : (task by : String) → Option String → List String → Command
  materialize : (by : String) → Command
  sync : (final by : String) → Command
  record_capture : Capture → Command

-- What the calls rely on: the entries of the `nodes/` folders and two functions of Python.
pub record Setting : Type 0 where
  pub nodes : List Node
  pub coerce : String → Json
  pub loads : String → Option Json

module _ (setting : Setting) (env : Env) where
  unfoldable pub perform : Command → Folder → Run
  perform (update w) f = update_context env w f
  perform (finish_step step by substep) f = journal_finish env setting.nodes f step by substep
  perform (advance step by) f = journal_advance env setting.nodes f step by
  perform (mark_complete by) f = mark_spec_complete env by f
  perform (finish_task task by did files) f = journal_task_finish env f task by did files
  perform (append_task task by did files) f = append_task_log env f task by did files
  perform (close task by did files) f = close_task env f task by did files
  perform (materialize by) f = materialize_log env f by
  perform (sync final by) f = sync_tasks env f final by
  perform (record_capture c) f = capture setting.coerce setting.loads env c f

-- One event in the life of a folder: a call, with what it finds outside the folder, or a change
-- by an editor or an assistant to a file that the calls read.
pub data Event : Type 0 where
  call : Env → Command → Event
  edit_tasks edit_spec : Option String → Event

unfoldable pub happen : Setting → Event → Folder → Folder
unfolding perform
happen setting (call env c) f = left_by (perform setting env c f)
happen setting (edit_tasks text) f = record f { tasks = text }
happen setting (edit_spec text) f = record f { spec = text }

unfoldable pub happen_all : Setting → List Event → Folder → Folder
unfolding happen
happen_all setting [] f = f
happen_all setting (e ∷ es) f = happen_all setting es (happen setting e f)
