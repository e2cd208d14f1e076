-- ===== src/Derive/Status.antt =====
-- `resolve` of `status-context.py`: where a feature stands and what comes next. The texts for a
-- reader (the label, the name and the decisions) are left out, and a recorded step that is no text
-- is taken as one that no pipeline has.
use saga_forge.Base.{
  Bool, true, false, not, ◌&&◌, ◌||◌, List, [], ◌∷◌, String, Option, none, some, ◌==◌, str_eq, elem,
  any, is_some, if◌then◌else◌, ◌≡◌, refl, ◌∙◌, inl, inr, Bool-cases, arith,
}
use saga_forge.Text.{cat}
use saga_forge.Json.{Json, num, bool, str, obj, Dict, get, truthy, is_str, list_or_empty}
use saga_forge.Context.{Folder, read_ctx, is_shipped, is_terminal, step_completed_status}
use saga_forge.Tasks.{Markers, parse_task_markers, distinct, all_in}
use saga_forge.Derive.Files.{infer, infer_from, infer_without_tasks, covered}
use saga_forge.Derive.Position.{Position, inferred, position}

-- `_next_unchecked_task`, of the distinct ids
unfoldable pub next_unchecked_task : List String → List String → Option String
next_unchecked_task [] done = none
next_unchecked_task (id ∷ ids) done = if elem id done then next_unchecked_task ids done else some id

-- `NEXT_STEP.get(step)`
abbrev next_step_of : String → Option String
next_step_of s =
    if elem s ("specify" ∷ "clarify" ∷ [])
    then some "plan"
    else if str_eq s "plan"
    then some "tasks"
    else if elem s ("tasks" ∷ "analyze" ∷ [])
    then some "implement"
    else none

-- `_is_companion`
abbrev is_companion : Dict → Bool
is_companion ctx = is_str (get "workflow" ctx) "companion" || is_str (get "profile" ctx) "turbo"

-- `_step_command`
abbrev step_command : Bool → Option String → Option String
step_command companion none = none
step_command companion (some s) =
    if elem s ("specify" ∷ "plan" ∷ "tasks" ∷ "implement" ∷ [])
    then some (cat (if companion then "speckit.companion." else "speckit.") s)
    else none

pub record Resolution : Type 0 where
  pub next_step : Option String
  pub next_command : Option String
  pub next_task : Option String
  pub complete : Bool

abbrev pub pipeline_complete : Resolution
pipeline_complete = record {
  next_step = none;
  next_command = none;
  next_task = none;
  complete = true;
}

abbrev go_to : Bool → Option String → Bool → Resolution
go_to companion step complete = record {
  next_step = step;
  next_command = step_command companion step;
  next_task = none;
  complete = complete;
}

abbrev pub continue_at : Bool → Option String → Resolution
continue_at companion none = pipeline_complete
continue_at companion (some task) = record (go_to companion (some "implement") false) {
  next_task = some task;
}

abbrev is_converge : Json → Bool
is_converge (obj e) = is_str (get "step" e) "converge"
is_converge _ = false

-- `converge_open`
abbrev pub converge_open : Dict → Position → Bool
converge_open ctx p =
    (str_eq p.step "converge"
      || (str_eq p.step "implement" && any is_converge (list_or_empty (get "history" ctx))))
    && not (is_shipped p.status)

abbrev is_finished : Option String → Json → Bool
is_finished none status = false
is_finished (some done) status = is_str status done

abbrev behind_step : Bool → Position → Resolution
behind_step companion p =
    if is_finished (step_completed_status p.step) p.status
    then go_to companion (next_step_of p.step) (not (is_some (next_step_of p.step)))
    else if elem p.step ("clarify" ∷ "analyze" ∷ [])
    then go_to companion (next_step_of p.step) false
    else go_to companion (some p.step) false

abbrev pub resolved : Folder → Position → Resolution
resolved f p =
    let ctx = read_ctx f in
    let m = parse_task_markers f.tasks in
    if is_terminal p.status && not (converge_open ctx p)
    then pipeline_complete
    else if elem p.step ("implement" ∷ "converge" ∷ [])
    then continue_at (is_companion ctx) (next_unchecked_task (distinct m.all_ids) m.done_ids)
    else behind_step (is_companion ctx) p

-- What `resolve` comes to: the report that there is nothing to summarize, a report on the position,
-- or the TypeError of `for e in ctx.get("history") or []`.
pub data Report : Type 0 where
  empty : Report
  report : Resolution → Report
  type_error : Report

-- What `for e in value or []` can go over
abbrev pub is_iterable : Json → Bool
is_iterable (num n) = n == 0
is_iterable (bool b) = not b
is_iterable _ = true

abbrev pub resolved_if : Folder → Option Position → Report
resolved_if f none = empty
resolved_if f (some p) =
    if is_iterable (get "history" (read_ctx f)) then report (resolved f p) else type_error

-- `resolve`
unfoldable pub resolve : Bool → Folder → Report
unfolding position parse_task_markers distinct next_unchecked_task step_completed_status
resolve plan f = resolved_if f (position plan f)

abbrev pub is_complete : Report → Bool
is_complete empty = false
is_complete (report r) = r.complete
is_complete type_error = false

-- No task is next if all are done.
all_in-next_unchecked_task :
    (ids done : List String) → all_in ids done ≡ true → next_unchecked_task ids done ≡ none
unfolding next_unchecked_task
all_in-next_unchecked_task [] done h = refl
all_in-next_unchecked_task (id ∷ ids) done h = elim (Bool-cases (elem id done)) [
  | inl ticked ↦ rw ticked (all_in-next_unchecked_task ids done (rw ticked at h))
  | inr unticked ↦ cc
]

covered-all_in : (m : Markers) → covered m ≡ true → all_in (distinct m.all_ids) m.done_ids ≡ true
covered-all_in m h = ground (arith, h)

module _ (f : Folder) where
  complete-implemented :
      covered (parse_task_markers f.tasks) ≡ true
      → (resolved f (record { step = "implement"; status = str "implemented" })).complete ≡ true
  complete-implemented h =
      let m = parse_task_markers f.tasks in
      elim (Bool-cases
        (converge_open (read_ctx f) (record { step = "implement"; status = str "implemented" }))) [
          | inl again ↦
              rw
                (
                  again,
                  all_in-next_unchecked_task (distinct m.all_ids) m.done_ids (covered-all_in m h),
                )
                refl
          | inr closed ↦ rw closed refl
        ]

  complete-report :
      (p : Position)
      → is_iterable (get "history" (read_ctx f)) ≡ true
      → is_complete (resolved_if f (some p)) ≡ (resolved f p).complete
  complete-report p h = rw h refl

  complete-without_tasks :
      (plan : Bool) (spec : Option String)
      → is_iterable (get "history" (read_ctx f)) ≡ true
      → is_complete (resolved_if f (inferred (infer_without_tasks plan spec))) ≡ false
  unfolding step_completed_status
  complete-without_tasks true spec h =
      complete-report (record { step = "plan"; status = str "planned" }) h ∙ refl
  complete-without_tasks false (some text) h =
      complete-report (record { step = "specify"; status = str "specified" }) h ∙ refl
  complete-without_tasks false none h = refl

  complete-inferred :
      (plan : Bool) (tasks : Option String)
      → f.tasks ≡ tasks
      → is_iterable (get "history" (read_ctx f)) ≡ true
      → is_complete (resolved_if f (inferred (infer_from tasks plan f.spec)))
        ≡ covered (parse_task_markers tasks)
  unfolding parse_task_markers step_completed_status
  complete-inferred plan none h goes = complete-without_tasks plan f.spec goes
  complete-inferred plan (some text) h goes =
      elim (Bool-cases (covered (parse_task_markers (some text)))) [
        | inl all ↦ rw (all, goes) (complete-implemented (rw h all))
        | inr open_tasks ↦ rw (open_tasks, goes) refl
      ]

-- Where the context records no current step, and its history is no number but 0 and not `true`, the
-- report says that the pipeline is complete exactly if tasks.md lists a task and each listed task is
-- ticked.
pub is_complete-resolve :
    (plan : Bool) (f : Folder)
    → truthy (get "currentStep" (read_ctx f)) ≡ false
    → is_iterable (get "history" (read_ctx f)) ≡ true
    → is_complete (resolve plan f) ≡ covered (parse_task_markers f.tasks)
unfolding resolve position infer
is_complete-resolve plan f h goes = rw h (complete-inferred f plan f.tasks refl goes)
