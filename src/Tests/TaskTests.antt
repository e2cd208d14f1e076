-- ===== src/Tests/TaskTests.antt =====
-- The theorems on the task journal, applied to a folder with two ticked tasks and appended lines.
use saga_forge.Base.{false, List, [], ◌∷◌, none, some, true, refl, ◌≡◌, ◌⊎◌, elem, if◌then◌else◌}
use saga_forge.Json.{str, get}
use saga_forge.History.{has_complete, journaled_tasks}
use saga_forge.Context.{
  Folder, EventLine, torn, bare, event, Finish, wrote, raised, read_ctx, left_by,
}
use saga_forge.Context.Written.{log_of}
use saga_forge.Tasks.{
  Draft, materialize_log, sync_tasks, tasks_at_100, parse_task_markers, no_markers, fold_lines,
  fold_line, fold_task, mark_tasks_done,
}
use saga_forge.Tasks.Folding.{
  fold_lines-fold_lines, materialize_log_bare, Settled, materialize_log-finishes,
}
use saga_forge.Tasks.Boxing.{completed_task-flip_line}
use saga_forge.Tasks.{flip_line, completed_task, pending_task, check_box}
use saga_forge.Tasks.Closing.{close_task-closes, journal_task_finish-closes}
use saga_forge.Tasks.{append_task_log, close_task, journal_task_finish}
use saga_forge.Tasks.Syncing.{sync_tasks-closes}
use saga_forge.Tests.Samples.{env, planning}

abbrev first_finish : Finish
first_finish = record { task = some "T001"; by = some "ai"; did = none; files = []; at = some "t" }

abbrev finish_T001 : EventLine
finish_T001 = event first_finish

abbrev with_lines : List EventLine → Folder
with_lines ls = record planning { events = some ls }

materialize_log_bare_example :
    materialize_log env (with_lines (finish_T001 ∷ bare ∷ [])) "ai"
    ≡ raised (with_lines (finish_T001 ∷ bare ∷ []))
materialize_log_bare_example =
    materialize_log_bare env (with_lines (finish_T001 ∷ bare ∷ [])) "ai" (finish_T001 ∷ bare ∷ [])
      refl refl refl

materialize_log-finishes_example :
    (g : Folder) × (materialize_log env (with_lines (torn ∷ finish_T001 ∷ [])) "ai" ≡ wrote g)
    × Settled env (torn ∷ finish_T001 ∷ []) "T001" g
materialize_log-finishes_example =
    materialize_log-finishes env (with_lines (torn ∷ finish_T001 ∷ [])) "ai" "T001"
      (torn ∷ finish_T001 ∷ []) refl refl refl

abbrev empty_draft : Draft
empty_draft = record { ctx = read_ctx planning; log = []; ticks = 0 }

abbrev after_lines : Draft → Draft
after_lines d = fold_task env no_markers "ai" first_finish (some "T001") d

fold_lines-fold_lines_example :
    (after_lines (after_lines empty_draft)).log ≡ (after_lines empty_draft).log
unfolding fold_lines fold_line
fold_lines-fold_lines_example =
    fold_lines-fold_lines env no_markers no_markers "ai" "ai" (finish_T001 ∷ []) empty_draft
      (after_lines empty_draft) (after_lines empty_draft) (after_lines (after_lines empty_draft))
      refl refl refl

abbrev ticked : Folder
ticked = record planning { tasks = some "- [x] T001 first\n- [x] **T002** second\n" }

sync_tasks-closes_example :
    (g : Folder) × (sync_tasks env ticked "implemented" "ai" ≡ wrote g)
    × (get "status" (read_ctx g)
        ≡ str (
            if tasks_at_100 (parse_task_markers ticked.tasks)
            then "implemented"
            else "implementing"))
    × ((elem "T002" (parse_task_markers ticked.tasks).done_ids ≡ false)
        ⊎ (elem "T002" (journaled_tasks (log_of ticked)) ≡ true)
        ⊎ (has_complete (log_of g) "implement" (some "T002") ≡ true))
unfolding parse_task_markers saga_forge.Text.lines
sync_tasks-closes_example = sync_tasks-closes env ticked "implemented" "ai" "T002" refl refl refl

-- The marks that `parse_task_markers` passes over in a fence are rewritten all the same.
flips_in_a_fence :
    mark_tasks_done (some "```\n- [ ] T003 shown only\n```\n") ("T003" ∷ [])
    ≡ some "```\n- [x] T003 shown only\n```\n"
unfolding mark_tasks_done saga_forge.Text.lines
flips_in_a_fence = refl

passes_over_a_fence : (parse_task_markers (some "```\n- [x] T003 shown only\n```\n")).all_ids ≡ []
unfolding parse_task_markers saga_forge.Text.lines
passes_over_a_fence = refl

completed_task-flip_line_example :
    completed_task (flip_line ("T002" ∷ []) "  - [ ] **T002** second") ≡ some "T002"
unfolding saga_forge.Text.skip_spaces saga_forge.Text.is_space saga_forge.Text.after_prefix
    saga_forge.Tasks.task_id
completed_task-flip_line_example =
    completed_task-flip_line ("T002" ∷ []) "  - [ ] **T002** second" "T002" refl refl

-- A box that holds a tab is pending, and is never flipped.
keeps_a_tab : flip_line ("T002" ∷ []) "- [\t] T002 second" ≡ "- [\t] T002 second"
unfolding check_box pending_task
keeps_a_tab = refl

pending_with_a_tab : pending_task "- [\t] T002 second" ≡ some "T002"
unfolding pending_task
pending_with_a_tab = refl

close_task-closes_example :
    (g : Folder) × (close_task env
        (with_lines (torn ∷ []))
        "T001"
        "ai"
        (some "built it")
        ("a.ts" ∷ [])
      ≡ wrote g)
    × (has_complete (log_of g) "implement" (some "T001") ≡ true)
close_task-closes_example =
    close_task-closes env (with_lines (torn ∷ [])) "T001" "ai" (some "built it") ("a.ts" ∷ []) refl
      refl refl refl refl

journal_task_finish-closes_example :
    (g : Folder) × (journal_task_finish env planning "T001" "ai" none [] ≡ wrote g)
    × (has_complete (log_of g) "implement" (some "T001") ≡ true)
journal_task_finish-closes_example =
    journal_task_finish-closes env planning "T001" "ai" none [] refl

-- A text with U+2028: the appended finish is read as two lines, and neither folds.
abbrev split_text : Folder
split_text = left_by (append_task_log env (with_lines []) "T001" "ai" (some "one\u{2028}two") [])

split_finish_is_torn : split_text.events ≡ some (torn ∷ [])
unfolding append_task_log
split_finish_is_torn = refl

-- A last line that was torn off: the appended finish runs on it, and is lost with it.
abbrev torn_off : Folder
torn_off = record (with_lines (finish_T001 ∷ torn ∷ [])) { open_end = true }

finish_lost_behind_torn :
    (left_by (append_task_log env torn_off "T002" "ai" none [])).events
    ≡ some (finish_T001 ∷ torn ∷ [])
unfolding append_task_log
finish_lost_behind_torn = refl
