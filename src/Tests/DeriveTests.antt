-- ===== src/Tests/DeriveTests.antt =====
-- The theorems on `derive`, applied to a folder with two ticked tasks, and a task listed twice.
use saga_forge.Base.{true, false, some, refl, ◌≡◌, Extends}
use saga_forge.Context.{Folder, left_by, absent, document}
use saga_forge.Json.{num, obj, entry, empty}
use saga_forge.Context.Written.{log_of}
use saga_forge.Tasks.{parse_task_markers, tasks_at_100}
use saga_forge.Lifecycle.Machine.{point_of}
use saga_forge.Lifecycle.Progress.{has_reached}
use saga_forge.Derive.{derive, infer, covered}
use saga_forge.Derive.Growth.{derive-Extends}
use saga_forge.Derive.Status.{resolve, type_error, is_complete, is_complete-resolve}
use saga_forge.Derive.Steps.{derive-has_reached}
use saga_forge.Tests.Samples.{env, planning}

abbrev ticked_both : Folder
ticked_both = record planning { tasks = some "- [x] T001 first\n- [x] T002 second\n" }

derive-Extends_example :
    Extends (log_of ticked_both) (log_of (left_by (derive env "derive" true ticked_both)))
derive-Extends_example = derive-Extends env "derive" true ticked_both

derive-has_reached_example :
    has_reached 2 (point_of (left_by (derive env "derive" true ticked_both))).step ≡ true
derive-has_reached_example = derive-has_reached env "derive" 2 true ticked_both refl

-- A task that is listed twice and ticked once: derived as implemented, and not at 100 for
-- `sync_tasks`.
abbrev listed_twice : Folder
listed_twice = record planning { tasks = some "- [x] T001 first\n- [ ] T001 again\n" }

derived_as_implemented : infer true listed_twice ≡ some ("implement", "implemented")
unfolding infer parse_task_markers saga_forge.Text.lines saga_forge.Tasks.distinct
derived_as_implemented = refl

not_at_100 : tasks_at_100 (parse_task_markers listed_twice.tasks) ≡ false
unfolding parse_task_markers saga_forge.Text.lines
not_at_100 = refl

abbrev unrecorded : Folder
unrecorded = record ticked_both { context = absent }

is_complete-resolve_example :
    is_complete (resolve true unrecorded) ≡ covered (parse_task_markers unrecorded.tasks)
is_complete-resolve_example = is_complete-resolve true unrecorded refl refl

reports_completion : is_complete (resolve true unrecorded) ≡ true
unfolding resolve saga_forge.Text.lines
reports_completion = refl

-- A history that is a number: the report ends in a TypeError.
abbrev counted : Folder
counted = record ticked_both { context = document (obj (entry "history" (num 5) empty)) }

number_is_no_history : resolve true counted ≡ type_error
unfolding resolve saga_forge.Text.lines
number_is_no_history = refl
