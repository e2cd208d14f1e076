-- ===== src/Tasks/SyncPoints.antt =====
-- Where `sync_tasks` leaves the status and the current step, before the write.
use saga_forge.Base.{Bool, true, false, List, [], ◌∷◌, String, ◌≡◌, refl, ◌∙◌, if◌then◌else◌}
use saga_forge.Json.{get, put, str, Dict}
use saga_forge.Json.DictLaws.{get-put, get-put_self}
use saga_forge.History.{Log}
use saga_forge.Context.{Env}
use saga_forge.Tasks.Marks.{Markers}
use saga_forge.Tasks.Fold.{tasks_at_100}
use saga_forge.Tasks.Journal.{Draft}
use saga_forge.Tasks.Sync.{append_fresh, close_all, sync_context}

module _ (env : Env) where
  pub append_fresh-ctx :
      (by : String) (tasks : List String) (d : Draft) → (append_fresh env by tasks d).ctx ≡ d.ctx
  unfolding append_fresh
  append_fresh-ctx by [] d = refl
  append_fresh-ctx by (task ∷ tasks) d = append_fresh-ctx by tasks _

  pub close_all-ctx : (b : Bool) (by : String) (d : Draft) → (close_all env b by d).ctx ≡ d.ctx
  close_all-ctx false by d = refl
  close_all-ctx true by d = refl

  module _ (m : Markers) (final : String) (ctx : Dict) (log : Log) where
    pub status-sync_context :
        get "status" (sync_context env m final log ctx)
        ≡ str (if tasks_at_100 m then final else "implementing")
    status-sync_context =
        get-put "currentTask" "status" _ _
        ∙ get-put_self "status" _ (put "currentStep" (str "implement") ctx)

    pub step-sync_context : get "currentStep" (sync_context env m final log ctx) ≡ str "implement"
    step-sync_context =
        get-put "currentTask" "currentStep" _ _
        ∙ get-put "status" "currentStep" _ (put "currentStep" (str "implement") ctx)
        ∙ get-put_self "currentStep" (str "implement") ctx
