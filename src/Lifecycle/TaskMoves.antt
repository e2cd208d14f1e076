-- ===== src/Lifecycle/TaskMoves.antt =====
-- The calls of the task journal as moves of the lifecycle machine.
use saga_forge.Base.{
  Bool, false, List, [], ◌∷◌, String, Option, none, some, str_eq, ◌≡◌, refl, inl, inr, ◌∙◌,
  Bool-cases, Option-cases,
}
use mathlib.Core.Path.{subst}
use saga_forge.Json.{get, Dict}
use saga_forge.History.{Log, commit_log}
use saga_forge.Context.{
  Folder, Env, EventLine, blank, torn, bare, event, Finish, Run, wrote, refused, raised, left_by,
  read_ctx, fill_required, atomic_write,
}
use saga_forge.Context.Written.{get-atomic_write, get-commit_log, is_log_key}
use saga_forge.Context.Required.{get-fill_required}
use saga_forge.Context.Opening.{primed, IsShipped-cases}
use saga_forge.Tasks.{
  Draft, maybe_close, opened, fold_finish, fold_line, fold_lines, fold_task, next_tick, or_by,
  stamped, stamp_ticks, settle, materialize_log, materialize_folded, journal_task_finish,
  append_task_log, close_task, close_appended, Markers, parse_task_markers, tasks_at_100,
}
use saga_forge.Tasks.Growth.{
  folded, journal_task_finish_live, journal_task_finish_shipped, materialize_log_live,
  materialize_log_shipped, materialize_log_absent, close_folded-left,
}
use saga_forge.Tasks.Points.{
  status-fold_context, step-fold_context, status-close_context, step-close_context,
}
use saga_forge.Lifecycle.Machine.{
  Point, point, point_of, Moves, Moves-to, Moves-trans, stay, next, work, close,
}

-- A key outside the log's is written as it is in the context.
pub get-written :
    (f : Folder) (ctx : Dict) (log : Log) (k : String)
    → is_log_key k ≡ false
    → get k (read_ctx (atomic_write f (commit_log ctx log))) ≡ get k ctx
get-written f ctx log k h = get-atomic_write f (commit_log ctx log) k h ∙ get-commit_log ctx log k h

module _ {statuses : Option String → Bool} {steps : String → Bool} where
  pub Moves-write :
      {p : Point} (f : Folder) (ctx : Dict) (log : Log)
      → Moves statuses steps p (point ctx)
      → Moves statuses steps p (point_of (atomic_write f (commit_log ctx log)))
  Moves-write f ctx log ms =
      Moves-to _ (get-written f ctx log "status" refl) (get-written f ctx log "currentStep" refl) ms

  -- The required keys are neither the status nor the step.
  pub Moves-filled :
      (env : Env) (f : Folder)
      → Moves statuses steps (point_of f) (point (fill_required env f (read_ctx f)))
  Moves-filled env f =
      stay (get-fill_required env f (read_ctx f) "status" refl)
        (get-fill_required env f (read_ctx f) "currentStep" refl)

  Moves-finish :
      {p : Point} (m : Markers) (task by : String) (did : Option String) (files : List String)
      (at : String) (d : Draft)
      → Moves statuses steps p (point d.ctx)
      → Moves statuses steps p (point (fold_finish m task by did files at d).ctx)
  Moves-finish m task by did files at d ms = next ms (
      work (tasks_at_100 m) (status-fold_context m task by did files d.ctx)
        (step-fold_context m task by did files d.ctx))

  module _ (env : Env) where
    Moves-close :
        {p : Point} (m : Markers) (by : String) (d : Draft)
        → Moves statuses steps p (point d.ctx)
        → Moves statuses steps p (point (maybe_close env m by d).ctx)
    unfolding maybe_close
    Moves-close m by d ms = elim (status-close_context m d.log d.ctx) [
      | inl same ↦ Moves-to _ same (step-close_context m d.log d.ctx) ms
      | inr (live, now) ↦ next ms (close live now (step-close_context m d.log d.ctx))
    ]

    pub journal_task_finish-Moves :
        (f : Folder) (task by : String) (did : Option String) (files : List String)
        → Moves statuses steps
            (point_of f)
            (point_of (left_by (journal_task_finish env f task by did files)))
    journal_task_finish-Moves f task by did files = elim (IsShipped-cases f) [
      | inl shipped ↦
          rw (journal_task_finish_shipped env f task by did files shipped) (stay refl refl)
      | inr live ↦ rw (journal_task_finish_live env f task by did files live) (
          Moves-write _ _ _ (
            Moves-close _ by _ (
              Moves-finish _ task by did files (env.now f.ticks)
                (next_tick (opened f (primed env f))) (Moves-filled env f))))
    ]

    Moves-fold_task :
        {p : Point} (m : Markers) (by : String) (e : Finish) (task : Option String) (d : Draft)
        → Moves statuses steps p (point d.ctx)
        → Moves statuses steps p (point (fold_task env m by e task d).ctx)
    Moves-fold_task m by e none d ms = ms
    Moves-fold_task m by e (some task) d ms = elim (Bool-cases (str_eq task "")) [
      | inl nameless ↦ rw nameless ms
      | inr named ↦ rw named (
          Moves-finish m task (or_by env e.by by) e.did e.files (stamped env e.at d)
            (record d { ticks = stamp_ticks env e.at d.ticks }) ms)
    ]

    Moves-fold_lines :
        {p : Point} (m : Markers) (by : String) (ls : List EventLine) (d d' : Draft)
        → fold_lines env m by ls d ≡ some d'
        → Moves statuses steps p (point d.ctx)
        → Moves statuses steps p (point d'.ctx)
    unfolding fold_lines fold_line
    Moves-fold_lines {p} m by [] d d' e ms =
        let here : d ≡ d' = cc in subst (λ x. Moves statuses steps p (point x.ctx)) here ms
    Moves-fold_lines m by (blank ∷ ls) d d' e ms = Moves-fold_lines m by ls d d' e ms
    Moves-fold_lines m by (torn ∷ ls) d d' e ms = Moves-fold_lines m by ls d d' e ms
    Moves-fold_lines m by (bare ∷ ls) d d' e ms = cc
    Moves-fold_lines m by (event x ∷ ls) d d' e ms =
        Moves-fold_lines m by ls _ d' e (Moves-fold_task m by x x.task d ms)

    Moves-settle :
        {p : Point} (f : Folder) (by : String) (d : Draft)
        → Moves statuses steps p (point d.ctx)
        → Moves statuses steps p (point_of (settle env f by d))
    unfolding settle
    Moves-settle f by d ms = Moves-write _ _ _ (Moves-close _ by d ms)

    Moves-materialize :
        (f : Folder) (by : String) (ls : List EventLine) (o : Option Draft)
        → folded env f by ls ≡ o
        → Moves statuses steps (point_of f) (point_of (left_by (materialize_folded env f by o)))
    unfolding materialize_folded
    Moves-materialize f by ls none e = stay refl refl
    Moves-materialize f by ls (some d) e =
        Moves-settle f by d
          (Moves-fold_lines (parse_task_markers f.tasks) by ls _ d e (Moves-filled env f))

    pub materialize_log-Moves :
        (f : Folder) (by : String)
        → Moves statuses steps (point_of f) (point_of (left_by (materialize_log env f by)))
    materialize_log-Moves f by = elim (IsShipped-cases f) [
      | inl shipped ↦ rw (materialize_log_shipped env f by shipped) (stay refl refl)
      | inr live ↦ elim (Option-cases f.events) [
        | inl none_there ↦ rw (materialize_log_absent env f by none_there) (stay refl refl)
        | inr (ls, e) ↦
            rw (materialize_log_live env f by ls live e) (Moves-materialize f by ls _ refl)
      ]
    ]

    pub append_task_log-Moves :
        (f : Folder) (task by : String) (did : Option String) (files : List String)
        → Moves statuses steps
            (point_of f)
            (point_of (left_by (append_task_log env f task by did files)))
    unfolding append_task_log
    append_task_log-Moves f task by did files = elim (IsShipped-cases f) [
      | inl shipped ↦ rw shipped (stay refl refl)
      | inr live ↦ rw live (stay refl refl)
    ]

    close_appended-Moves :
        {p : Point} (r : Run) (by : String)
        → Moves statuses steps p (point_of (left_by r))
        → Moves statuses steps p (point_of (left_by (close_appended env r by)))
    unfolding close_appended
    close_appended-Moves (wrote f) by ms =
        rw (close_folded-left env (materialize_log env f by))
          (Moves-trans ms (materialize_log-Moves f by))
    close_appended-Moves (refused f) by ms = Moves-trans ms (materialize_log-Moves f by)
    close_appended-Moves (raised f) by ms = ms

    pub close_task-Moves :
        (f : Folder) (task by : String) (did : Option String) (files : List String)
        → Moves statuses steps
            (point_of f)
            (point_of (left_by (close_task env f task by did files)))
    unfolding close_task
    close_task-Moves f task by did files =
        close_appended-Moves (append_task_log env f task by did files) by
          (append_task_log-Moves f task by did files)
