-- ===== src/Tasks/Growth.antt =====
-- The lifecycle log behind the calls of the task journal.
use saga_forge.Base.{
  Extends, List, [], ◌∷◌, String, Option, none, some, str_eq, ◌≡◌, refl, ap, ◌∙◌, inl, inr,
  Bool-cases, Option-cases,
}
use mathlib.Core.Path.{subst}
use saga_forge.History.{Log, journaled_tasks}
use saga_forge.History.Grows.{Grows, same, Grows-trans, Grows-finish, Grows-Extends}
use saga_forge.Context.{
  Folder, Env, EventLine, blank, torn, bare, event, Finish, Run, wrote, refused, raised, left_by,
}
use saga_forge.Context.Written.{log_of, log_of-atomic_write}
use saga_forge.Tasks.Marks.{Markers, parse_task_markers}
use saga_forge.Tasks.Fold.{closes_implement, close_log}
use saga_forge.Tasks.Journal.{
  Draft, publish, maybe_close, opened, fold_finish, fold_line, fold_lines, fold_task, or_by,
  stamped, settle, materialize_log, journal_task_finish, append_task_log, close_task, next_tick,
  materialize_folded, materialize_opened, materialize_events, close_folded, close_appended,
}
use saga_forge.Tasks.Boxes.{mark_tasks_done}
use saga_forge.Context.Opening.{
  IsShipped, IsLive, primed, open_ctx_shipped, open_ctx_live, IsShipped-cases,
}

-- What is published over a log that it grew from is what a reader finds.
pub log_of-publish :
    (f : Folder) (d : Draft) → Grows (log_of f) d.log → log_of (publish f d) ≡ d.log
log_of-publish f d g =
    log_of-atomic_write (record f { ticks = d.ticks }) d.ctx d.log (Grows-Extends g)

pub publish-Grows :
    (f : Folder) (d : Draft) → Grows (log_of f) d.log → Grows (log_of f) (log_of (publish f d))
publish-Grows f d g =
    rw (log_of-atomic_write (record f { ticks = d.ticks }) d.ctx d.log (Grows-Extends g)) g

pub close_log-Grows :
    (m : Markers) (by now : String) (log : Log) → Grows log (close_log m by now log)
close_log-Grows m by now log = elim (Bool-cases (closes_implement m log)) [
  | inl closing ↦ rw closing (Grows-finish log "implement" none none by now (inl refl))
  | inr open_still ↦ rw open_still same
]

module _ (env : Env) where
  maybe_close-Grows :
      (m : Markers) (by : String) (d : Draft) → Grows d.log (maybe_close env m by d).log
  unfolding maybe_close
  maybe_close-Grows m by d = close_log-Grows m by (env.now d.ticks) d.log

  -- Where `journal_task_finish` is not refused, what it writes.
  abbrev pub journaled : Folder → String → String → Option String → List String → Folder
  journaled f task by did files =
      let f' = record f { tasks = mark_tasks_done f.tasks (task ∷ []) } in
      let m = parse_task_markers f'.tasks in
      let d = opened f (primed env f) in
      publish f'
        (maybe_close env m by (fold_finish m task by did files (env.now d.ticks) (next_tick d)))

  pub journal_task_finish_live :
      (f : Folder) (task by : String) (did : Option String) (files : List String)
      → IsLive f
      → journal_task_finish env f task by did files ≡ wrote (journaled f task by did files)
  unfolding journal_task_finish
  journal_task_finish_live f task by did files h = rw (open_ctx_live env f h)

  pub journal_task_finish_shipped :
      (f : Folder) (task by : String) (did : Option String) (files : List String)
      → IsShipped f
      → journal_task_finish env f task by did files ≡ refused f
  unfolding journal_task_finish
  journal_task_finish_shipped f task by did files h = rw (open_ctx_shipped env f h)

  pub journal_task_finish-Grows :
      (f : Folder) (task by : String) (did : Option String) (files : List String)
      → Grows (log_of f) (log_of (left_by (journal_task_finish env f task by did files)))
  journal_task_finish-Grows f task by did files = elim (IsShipped-cases f) [
    | inl shipped ↦ rw (journal_task_finish_shipped f task by did files shipped) same
    | inr live ↦ rw (journal_task_finish_live f task by did files live) (
        publish-Grows (record f { tasks = mark_tasks_done f.tasks (task ∷ []) }) _
          (Grows-trans (Grows-finish (log_of f) "implement" none (some task) by _ (inl refl))
            (maybe_close-Grows _ by _)))
  ]

  fold_task-Grows :
      (m : Markers) (by : String) (e : Finish) (task : Option String) (d : Draft)
      → Grows d.log (fold_task env m by e task d).log
  fold_task-Grows m by e none d = same
  fold_task-Grows m by e (some task) d = elim (Bool-cases (str_eq task "")) [
    | inl nameless ↦ rw nameless same
    | inr named ↦ rw named (
        Grows-finish d.log "implement" none (some task) (or_by env e.by by) (stamped env e.at d)
          (inl refl))
  ]

  pub fold_lines-Grows :
      (m : Markers) (by : String) (ls : List EventLine) (d d' : Draft)
      → fold_lines env m by ls d ≡ some d'
      → Grows d.log d'.log
  unfolding fold_lines fold_line
  fold_lines-Grows m by [] d d' e =
      let here : d ≡ d' = cc in subst (λ x. Grows d.log x.log) here same
  fold_lines-Grows m by (blank ∷ ls) d d' e = fold_lines-Grows m by ls d d' e
  fold_lines-Grows m by (torn ∷ ls) d d' e = fold_lines-Grows m by ls d d' e
  fold_lines-Grows m by (bare ∷ ls) d d' e = cc
  fold_lines-Grows m by (event x ∷ ls) d d' e =
      Grows-trans (fold_task-Grows m by x x.task d) (fold_lines-Grows m by ls _ d' e)

  pub settle-Grows :
      (f : Folder) (by : String) (d : Draft)
      → Grows (log_of f) d.log
      → Grows (log_of f) (log_of (settle env f by d))
  unfolding settle
  settle-Grows f by d g =
      publish-Grows (record f { tasks = mark_tasks_done f.tasks (journaled_tasks d.log) }) _
        (Grows-trans g (maybe_close-Grows _ by d))

  -- What was folded is published, with the step's close behind it.
  pub settle_log-Extends :
      (f : Folder) (by : String) (d : Draft)
      → Grows (log_of f) d.log
      → Extends d.log (log_of (settle env f by d))
  unfolding settle
  settle_log-Extends f by d g =
      let f' = record f { tasks = mark_tasks_done f.tasks (journaled_tasks d.log) } in
      let closed = maybe_close-Grows (parse_task_markers f'.tasks) by d in
      rw
        (log_of-atomic_write
          (record f' { ticks = (maybe_close env (parse_task_markers f'.tasks) by d).ticks })
          (maybe_close env (parse_task_markers f'.tasks) by d).ctx
          (maybe_close env (parse_task_markers f'.tasks) by d).log
          (Grows-Extends (Grows-trans g closed)))
        (Grows-Extends closed)

  -- The draft that the loop of `materialize_log` starts from, and its outcome.
  abbrev pub folded : Folder → String → List EventLine → Option Draft
  folded f by ls = fold_lines env (parse_task_markers f.tasks) by ls (opened f (primed env f))

  materialize_events_live :
      (f : Folder) (by : String) (ls : List EventLine)
      → IsLive f
      → materialize_events env f by (some ls) ≡ materialize_folded env f by (folded f by ls)
  unfolding materialize_events
  materialize_events_live f by ls live = rw (open_ctx_live env f live, materialize_opened)

  pub materialize_log_live :
      (f : Folder) (by : String) (ls : List EventLine)
      → IsLive f
      → f.events ≡ some ls
      → materialize_log env f by ≡ materialize_folded env f by (folded f by ls)
  unfolding materialize_log
  materialize_log_live f by ls live e =
      ap (materialize_events env f by) e ∙ materialize_events_live f by ls live

  materialize_events_shipped :
      (f : Folder) (by : String) (evs : Option (List EventLine))
      → IsShipped f
      → materialize_events env f by evs ≡ refused f
  unfolding materialize_events
  materialize_events_shipped f by none shipped = refl
  materialize_events_shipped f by (some ls) shipped =
      rw (open_ctx_shipped env f shipped, materialize_opened)

  pub materialize_log_shipped :
      (f : Folder) (by : String) → IsShipped f → materialize_log env f by ≡ refused f
  unfolding materialize_log
  materialize_log_shipped f by shipped = materialize_events_shipped f by f.events shipped

  materialize_folded-Grows :
      (f : Folder) (by : String) (ls : List EventLine) (o : Option Draft)
      → folded f by ls ≡ o
      → Grows (log_of f) (log_of (left_by (materialize_folded env f by o)))
  unfolding materialize_folded
  materialize_folded-Grows f by ls none e = same
  materialize_folded-Grows f by ls (some d) e =
      settle-Grows f by d (fold_lines-Grows (parse_task_markers f.tasks) by ls _ d e)

  pub materialize_log_absent :
      (f : Folder) (by : String) → f.events ≡ none → materialize_log env f by ≡ refused f
  unfolding materialize_log
  materialize_log_absent f by e = ap (materialize_events env f by) e

  pub materialize_log-Grows :
      (f : Folder) (by : String) → Grows (log_of f) (log_of (left_by (materialize_log env f by)))
  materialize_log-Grows f by = elim (IsShipped-cases f) [
    | inl shipped ↦ rw (materialize_log_shipped f by shipped) same
    | inr live ↦ elim (Option-cases f.events) [
      | inl none_there ↦ rw (materialize_log_absent f by none_there) same
      | inr (ls, e) ↦
          rw (materialize_log_live f by ls live e) (materialize_folded-Grows f by ls _ refl)
    ]
  ]

  pub append_task_log-log :
      (f : Folder) (task by : String) (did : Option String) (files : List String)
      → log_of (left_by (append_task_log env f task by did files)) ≡ log_of f
  unfolding append_task_log
  append_task_log-log f task by did files = elim (IsShipped-cases f) [
    | inl shipped ↦ rw shipped
    | inr live ↦ rw live
  ]

  pub close_folded-left : (r : Run) → left_by (close_folded env r) ≡ left_by r
  unfolding close_folded
  close_folded-left (wrote f) = refl
  close_folded-left (refused f) = refl
  close_folded-left (raised f) = refl

  close_appended-Grows :
      (r : Run) (by : String)
      → Grows (log_of (left_by r)) (log_of (left_by (close_appended env r by)))
  unfolding close_appended
  close_appended-Grows (wrote f) by =
      rw (close_folded-left (materialize_log env f by)) (materialize_log-Grows f by)
  close_appended-Grows (refused f) by = materialize_log-Grows f by
  close_appended-Grows (raised f) by = same

  pub close_task-Grows :
      (f : Folder) (task by : String) (did : Option String) (files : List String)
      → Grows (log_of f) (log_of (left_by (close_task env f task by did files)))
  unfolding close_task
  close_task-Grows f task by did files =
      rw (append_task_log-log f task by did files) at
        (close_appended-Grows (append_task_log env f task by did files) by)
