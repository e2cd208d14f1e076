-- ===== src/Tasks/Points.antt =====
-- Where the calls of the task journal leave the status and the current step, before the write.
use saga_forge.Base.{
  Bool, ap, false, String, Option, ◌≡◌, ◌∙◌, refl, List, Bool-cases, inl, inr, if◌then◌else◌,
  str_eq, ◌⊎◌,
}
use saga_forge.Json.{Json, str, Dict, get, put}
use saga_forge.Json.DictLaws.{get-put, get-put_self}
use saga_forge.History.{Log}
use saga_forge.Context.{is_terminal, is_shipped}
use saga_forge.Tasks.Marks.{Markers}
use saga_forge.Tasks.Fold.{
  fold_context, fold_status, upsert_task_summary, tasks_at_100, close_context, closes_implement,
  at_task,
}

-- The status that follows a finished task.
abbrev pub worked : Bool → Json → Json
worked at_100 old =
    if is_terminal old then old else str (if at_100 then "implemented" else "implementing")

get-upsert_task_summary :
    (k : String) (ctx : Dict) (task : String) (did : Option String) (files : List String)
    → str_eq "task_summaries" k ≡ false
    → get k (upsert_task_summary ctx task did files) ≡ get k ctx
unfolding upsert_task_summary
get-upsert_task_summary k ctx task did files h = get-put "task_summaries" k _ ctx ∙ rw h

status-fold_status :
    (m : Markers) (ctx : Dict)
    → get "status" (fold_status m ctx) ≡ worked (tasks_at_100 m) (get "status" ctx)
status-fold_status m ctx = elim (Bool-cases (is_terminal (get "status" ctx))) [
  | inl over ↦ rw over
  | inr live ↦ rw live (get-put_self "status" _ ctx)
]

step-fold_status :
    (m : Markers) (ctx : Dict) → get "currentStep" (fold_status m ctx) ≡ get "currentStep" ctx
step-fold_status m ctx = elim (Bool-cases (is_terminal (get "status" ctx))) [
  | inl over ↦ rw over
  | inr live ↦ rw live (get-put "status" "currentStep" _ ctx)
]

module _ (m : Markers) (task by : String) (did : Option String) (files : List String)
    (ctx : Dict) where
  pub status-fold_context :
      get "status" (fold_context m task did files ctx) ≡ worked (tasks_at_100 m) (get "status" ctx)
  unfolding fold_context
  status-fold_context =
      get-upsert_task_summary "status" (fold_status m (at_task task ctx)) task did files refl
      ∙ status-fold_status m (at_task task ctx)
      ∙ ap (worked (tasks_at_100 m)) (
          get-put "currentTask" "status" (str task) (put "currentStep" (str "implement") ctx)
          ∙ get-put "currentStep" "status" (str "implement") ctx)

  pub step-fold_context : get "currentStep" (fold_context m task did files ctx) ≡ str "implement"
  unfolding fold_context
  step-fold_context =
      get-upsert_task_summary "currentStep" (fold_status m (at_task task ctx)) task did files refl
      ∙ step-fold_status m (at_task task ctx)
      ∙ get-put "currentTask" "currentStep" (str task) (put "currentStep" (str "implement") ctx)
      ∙ get-put_self "currentStep" (str "implement") ctx

-- `_maybe_close_implement` keeps the step, and leaves the status or sets it where none is shipped.
pub step-close_context :
    (m : Markers) (log : Log) (ctx : Dict)
    → get "currentStep" (close_context m log ctx) ≡ get "currentStep" ctx
step-close_context m log ctx = elim (Bool-cases (closes_implement m log)) [
  | inr open_still ↦ rw open_still
  | inl closing ↦ rw closing (elim (Bool-cases (is_shipped (get "status" ctx))) [
    | inl over ↦ rw over
    | inr live ↦ rw live (get-put "status" "currentStep" _ ctx)
  ])
]

pub status-close_context :
    (m : Markers) (log : Log) (ctx : Dict)
    → (get "status" (close_context m log ctx) ≡ get "status" ctx)
      ⊎ (is_shipped (get "status" ctx) ≡ false)
        × (get "status" (close_context m log ctx) ≡ str "implemented")
status-close_context m log ctx = elim (Bool-cases (closes_implement m log)) [
  | inr open_still ↦ inl (rw open_still)
  | inl closing ↦ elim (Bool-cases (is_shipped (get "status" ctx))) [
    | inl over ↦ inl (rw (closing, over))
    | inr live ↦ inr (live, rw (closing, live) (get-put_self "status" _ ctx))
  ]
]
