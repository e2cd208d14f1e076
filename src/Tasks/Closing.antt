-- ===== src/Tasks/Closing.antt =====
-- The calls that finish one task: `journal_task_finish`, and `close_task`, which appends and folds.
use saga_forge.Base.{
  suc, Bool, true, false, ◌||◌, List, [], ◌∷◌, ◌++◌, String, Option, none, some, str_eq, eq_refl,
  ◌≡◌, refl, ◌∙◌, ap, inl, inr, any, any-append,
}
use saga_forge.History.{has_complete, append_complete}
use saga_forge.History.Completion.{append_complete-closes, has_complete-Extends}
use saga_forge.History.Grows.{Grows-Extends, Grows-finish, Grows-trans}
use saga_forge.Context.{Folder, Env, EventLine, event, Finish, wrote, tick}
use saga_forge.Context.Opening.{IsLive, primed}
use saga_forge.Context.Written.{log_of}
use saga_forge.Tasks.Marks.{parse_task_markers}
use saga_forge.Tasks.Boxes.{mark_tasks_done}
use saga_forge.Tasks.Journal.{
  append_task_log, materialize_log, close_task, close_appended, close_folded, event_lines,
  appended_lines, finish_of, is_one_line, journal_task_finish, opened, maybe_close, fold_finish,
  next_tick,
}
use saga_forge.Tasks.Growth.{journaled, journal_task_finish_live, close_log-Grows, log_of-publish}
use saga_forge.Tasks.Folding.{is_bare, finishes, Settled, materialize_log-finishes}

either : (b : Bool) → (b || true) ≡ true
either true = refl
either false = refl

appended_lines-closed :
    (env : Env) (ls new : List EventLine) → appended_lines env false ls new ≡ ls ++ new
unfolding appended_lines
appended_lines-closed env [] new = refl
appended_lines-closed env (l ∷ []) new = refl
appended_lines-closed env (l ∷ m ∷ ls) new =
    ap (λ x. l ∷ x) (appended_lines-closed env (m ∷ ls) new)

-- Of the three ways a fold can leave a task, the last, if it has a name and its line is there
Settled-complete :
    (env : Env) (ls : List EventLine) (task : String) (g : Folder)
    → str_eq task "" ≡ false
    → any (finishes task) ls ≡ true
    → Settled env ls task g
    → has_complete (log_of g) "implement" (some task) ≡ true
Settled-complete env ls task g named there (inl nameless) = cc
Settled-complete env ls task g named there (inr (inl missing)) = cc
Settled-complete env ls task g named there (inr (inr complete)) = complete

module _ (env : Env) (f : Folder) (task by : String) (did : Option String)
    (files : List String) where
  abbrev own_finish : Finish
  own_finish = finish_of env task by did files (env.now f.ticks)

  -- The events file behind the append.
  abbrev lines_behind : List EventLine
  lines_behind = event_lines env f.events ++ event own_finish ∷ []

  abbrev appended : Folder
  appended = record (tick f) { events = some lines_behind; open_end = false }

  append_task_log_live :
      IsLive f
      → f.open_end ≡ false
      → is_one_line own_finish ≡ true
      → append_task_log env f task by did files ≡ wrote appended
  unfolding append_task_log
  append_task_log_live live ended one =
      rw (live, ended, one)
        (ap (λ ls. wrote (record (tick f) { events = some ls; open_end = false }))
          (appended_lines-closed env (event_lines env f.events) (event own_finish ∷ [])))

  close_wrote :
      (g : Folder)
      → materialize_log env appended by ≡ wrote g
      → append_task_log env f task by did files ≡ wrote appended
      → close_task env f task by did files ≡ wrote g
  unfolding close_task close_appended close_folded
  close_wrote g e written = ap (λ r. close_appended env r by) written ∙ ap (close_folded env) e

  -- Where the events file has a line break behind its last line, no line of it is JSON without being
  -- an object, and no text of the finish has a character at which `str.splitlines` splits and that
  -- JSON does not escape, `close_task` on a spec that is not shipped writes, and the task, if it has
  -- a name, is then complete in the log.
  pub close_task-closes :
      IsLive f
      → f.open_end ≡ false
      → is_one_line own_finish ≡ true
      → any is_bare (event_lines env f.events) ≡ false
      → str_eq task "" ≡ false
      → (g : Folder) × (close_task env f task by did files ≡ wrote g)
        × (has_complete (log_of g) "implement" (some task) ≡ true)
  close_task-closes live ended one sound named =
      let bare_free : any is_bare lines_behind ≡ false =
        any-append is_bare (event_lines env f.events) (event own_finish ∷ []) ∙ rw sound refl in
      let there : any (finishes task) lines_behind ≡ true =
        any-append (finishes task) (event_lines env f.events) (event own_finish ∷ [])
        ∙ rw eq_refl (either (any (finishes task) (event_lines env f.events))) in
      let (g, writes, settled) =
        materialize_log-finishes env appended by task lines_behind live refl bare_free in
      (
        g,
        close_wrote g writes (append_task_log_live live ended one),
        Settled-complete env lines_behind task g named there settled,
      )

  -- `journal_task_finish` on a spec that is not shipped writes, and the task is then complete in the
  -- log.
  pub journal_task_finish-closes :
      IsLive f
      → (g : Folder) × (journal_task_finish env f task by did files ≡ wrote g)
        × (has_complete (log_of g) "implement" (some task) ≡ true)
  unfolding maybe_close
  journal_task_finish-closes live =
      let m = parse_task_markers (mark_tasks_done f.tasks (task ∷ [])) in
      let one = append_complete (log_of f) "implement" none (some task) by (env.now f.ticks) in
      let d =
        maybe_close env m by (
          fold_finish m task by did files (env.now f.ticks)
            (next_tick (opened f (primed env f)))) in
      let begun =
        Grows-finish (log_of f) "implement" none (some task) by (env.now f.ticks) (inl refl) in
      let closed = close_log-Grows m by (env.now (suc f.ticks)) one in
      (
        journaled env f task by did files,
        journal_task_finish_live env f task by did files live,
        rw
            (log_of-publish (record f { tasks = mark_tasks_done f.tasks (task ∷ []) }) d
              (Grows-trans begun closed))
            (has_complete-Extends one d.log "implement" (some task) (Grows-Extends closed) (
              append_complete-closes (log_of f) "implement" none (some task) by (env.now f.ticks)
                (inl refl))),
      )
