-- ===== src/Lifecycle/Shipped.antt =====
-- The calls on a spec that is completed or archived.
use saga_forge.Base.{
  Bool, true, false, List, [], ◌∷◌, String, Option, ◌≡◌, refl, sym, ap, ◌∙◌, arith, subst,
  Option-cases, inl, inr, if◌then◌else◌,
}
use saga_forge.Json.{Json, obj, Dict, empty, entry, get, truthy}
use saga_forge.History.{canonical_log}
use saga_forge.Context.{
  Folder, Env, Run, refused, left_by, read_ctx, loaded, is_shipped, is_terminal, is_past,
  is_more_advanced, binding_order,
}
use saga_forge.Context.Opening.{IsShipped, open_ctx_shipped}
use saga_forge.Tasks.{append_task_log, sync_tasks, close_task, close_appended}
use saga_forge.Tasks.Growth.{journal_task_finish_shipped, materialize_log_shipped}
use saga_forge.Steps.{
  Write, Node, is_known, timed, update_context, journal_finish, journal_advance, mark_spec_complete,
}
use saga_forge.Capture.Commands.{capture-SameLifecycle}
use saga_forge.Capture.Lifecycle.{SameLifecycle, SameLifecycle-refl}
use saga_forge.Lifecycle.Commands.{
  Command, update, finish_step, advance, mark_complete, finish_task, append_task, close,
  materialize, sync, record_capture, Setting, perform, Event, call, edit_tasks, edit_spec, happen,
  happen_all,
}

SameLifecycle-of_context : (f g : Folder) → g.context ≡ f.context → SameLifecycle f g
SameLifecycle-of_context f g e = record {
  log = ap (λ s. canonical_log (loaded s)) e;
  status = ap (λ s. get "status" (loaded s)) e;
  step = ap (λ s. get "currentStep" (loaded s)) e;
}

SameLifecycle-trans : (f g h : Folder) → SameLifecycle f g → SameLifecycle g h → SameLifecycle f h
SameLifecycle-trans f g h a b = record {
  log = b.log ∙ a.log;
  status = b.status ∙ a.status;
  step = b.step ∙ a.step;
}

IsShipped-SameLifecycle : (f g : Folder) → SameLifecycle f g → IsShipped f → IsShipped g
IsShipped-SameLifecycle f g a h = subst (λ v. is_shipped v ≡ true) (sym a.status) h

shipped_truthy : (d : Dict) → is_shipped (get "status" d) ≡ true → truthy (obj d) ≡ true
shipped_truthy empty h = cc
shipped_truthy (entry k v d) h = refl

shipped_terminal : (v : Json) → is_shipped v ≡ true → is_terminal v ≡ true
shipped_terminal v h = ground arith

shipped_past :
    (ctx : Dict) (step : String)
    → is_shipped (get "status" ctx) ≡ true
    → is_more_advanced ctx step ≡ true
unfolding is_more_advanced
shipped_past ctx step h = elim (Option-cases (binding_order step)) [
  | inl free ↦ rw (free, is_past) h
  | inr (n, bound) ↦ rw (bound, is_past) (rw (shipped_terminal (get "status" ctx) h))
]

if_same : (b : Bool) (f : Folder) → (if b then refused f else refused f) ≡ refused f
if_same true f = refl
if_same false f = refl

module _ (env : Env) (f : Folder) (shipped : IsShipped f) where
  update_context_shipped : (w : Write) → update_context env w f ≡ refused (timed w.at f)
  unfolding update_context
  update_context_shipped w =
      rw (shipped_truthy (read_ctx f) shipped, shipped_past (read_ctx f) w.step shipped)

  journal_finish_shipped :
      (nodes : List Node) (step by : String) (substep : Option String)
      → journal_finish env nodes f step by substep ≡ refused f
  unfolding journal_finish
  journal_finish_shipped nodes step by substep =
      rw (open_ctx_shipped env f shipped) (if_same (is_known nodes step) f)

  journal_advance_shipped :
      (nodes : List Node) (step by : String) → journal_advance env nodes f step by ≡ refused f
  unfolding journal_advance
  journal_advance_shipped nodes step by =
      rw (open_ctx_shipped env f shipped) (if_same (is_known nodes step) f)

  mark_spec_complete_shipped : (by : String) → mark_spec_complete env by f ≡ refused f
  unfolding mark_spec_complete
  mark_spec_complete_shipped by = rw shipped

  append_task_log_shipped :
      (task by : String) (did : Option String) (files : List String)
      → append_task_log env f task by did files ≡ refused f
  unfolding append_task_log
  append_task_log_shipped task by did files = rw shipped

  close_task_shipped :
      (task by : String) (did : Option String) (files : List String)
      → close_task env f task by did files ≡ refused f
  unfolding close_task
  close_task_shipped task by did files =
      rw (append_task_log_shipped task by did files)
        (unfold close_appended in materialize_log_shipped env f by shipped)

  sync_tasks_shipped : (final by : String) → sync_tasks env f final by ≡ refused f
  unfolding sync_tasks
  sync_tasks_shipped final by = rw shipped

left :
    (f : Folder) (r : Run) (g : Folder)
    → r ≡ refused g
    → SameLifecycle f g
    → SameLifecycle f (left_by r)
left f r g e s = subst (λ x. SameLifecycle f (left_by x)) (sym e) s

module _ (setting : Setting) where
  perform_shipped :
      (env : Env) (c : Command) (f : Folder)
      → IsShipped f
      → SameLifecycle f (left_by (perform setting env c f))
  unfolding perform
  perform_shipped env (update w) f h =
      left f _ _ (update_context_shipped env f h w) (SameLifecycle-of_context f (timed w.at f) refl)
  perform_shipped env (finish_step step by substep) f h =
      left f _ f (journal_finish_shipped env f h setting.nodes step by substep)
        (SameLifecycle-refl f)
  perform_shipped env (advance step by) f h =
      left f _ f (journal_advance_shipped env f h setting.nodes step by) (SameLifecycle-refl f)
  perform_shipped env (mark_complete by) f h =
      left f _ f (mark_spec_complete_shipped env f h by) (SameLifecycle-refl f)
  perform_shipped env (finish_task task by did files) f h =
      left f _ f (journal_task_finish_shipped env f task by did files h) (SameLifecycle-refl f)
  perform_shipped env (append_task task by did files) f h =
      left f _ f (append_task_log_shipped env f h task by did files) (SameLifecycle-refl f)
  perform_shipped env (close task by did files) f h =
      left f _ f (close_task_shipped env f h task by did files) (SameLifecycle-refl f)
  perform_shipped env (materialize by) f h =
      left f _ f (materialize_log_shipped env f by h) (SameLifecycle-refl f)
  perform_shipped env (sync final by) f h =
      left f _ f (sync_tasks_shipped env f h final by) (SameLifecycle-refl f)
  perform_shipped env (record_capture c) f h =
      capture-SameLifecycle setting.coerce setting.loads env c f

  happen_shipped : (e : Event) (f : Folder) → IsShipped f → SameLifecycle f (happen setting e f)
  unfolding happen
  happen_shipped (call env c) f h = perform_shipped env c f h
  happen_shipped (edit_tasks text) f h = SameLifecycle-of_context f (record f { tasks = text }) refl
  happen_shipped (edit_spec text) f h = SameLifecycle-of_context f (record f { spec = text }) refl

  -- From a spec that is completed or archived, no calls and edits change the lifecycle log, the
  -- status or the current step.
  pub happen_all_shipped :
      (es : List Event) (f : Folder) → IsShipped f → SameLifecycle f (happen_all setting es f)
  unfolding happen_all
  happen_all_shipped [] f h = SameLifecycle-refl f
  happen_all_shipped (e ∷ es) f h =
      let here = happen_shipped e f h in
      SameLifecycle-trans f (happen setting e f) _ here (
        happen_all_shipped es (happen setting e f)
          (IsShipped-SameLifecycle f (happen setting e f) here h))
