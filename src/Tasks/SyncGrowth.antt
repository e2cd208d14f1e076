-- ===== src/Tasks/SyncGrowth.antt =====
-- The lifecycle log behind the backstop `sync_tasks`.
use saga_forge.Base.{Bool, true, false, List, [], ◌∷◌, String, none, some, refl, inl, inr}
use saga_forge.History.Grows.{Grows, same, Grows-trans, Grows-finish}
use saga_forge.Context.{Folder, Env, Run, wrote, refused, raised, left_by}
use saga_forge.Context.Written.{log_of}
use saga_forge.Tasks.Marks.{Markers, parse_task_markers}
use saga_forge.Tasks.Fold.{tasks_at_100}
use saga_forge.Tasks.Journal.{Draft, materialize_log}
use saga_forge.Tasks.Sync.{
  sync_tasks, append_fresh, sync_folded, close_all, sync_after, sync_markers,
}
use saga_forge.Context.Opening.{IsShipped-cases}
use saga_forge.Tasks.Growth.{publish-Grows, materialize_log-Grows}

module _ (env : Env) where
  pub append_fresh-Grows :
      (by : String) (tasks : List String) (d : Draft)
      → Grows d.log (append_fresh env by tasks d).log
  unfolding append_fresh
  append_fresh-Grows by [] d = same
  append_fresh-Grows by (task ∷ tasks) d =
      Grows-trans (Grows-finish d.log "implement" none (some task) by _ (inl refl))
        (append_fresh-Grows by tasks _)

  pub close_all-Grows :
      (b : Bool) (by : String) (d : Draft) → Grows d.log (close_all env b by d).log
  close_all-Grows false by d = same
  close_all-Grows true by d = Grows-finish d.log "implement" none none by _ (inl refl)

  sync_folded-Grows :
      (f : Folder) (m : Markers) (final by : String)
      → Grows (log_of f) (log_of (sync_folded env f m final by))
  unfolding sync_folded
  sync_folded-Grows f m final by =
      publish-Grows f _
        (Grows-trans (append_fresh-Grows by _ _) (close_all-Grows (tasks_at_100 m) by _))

  sync_markers-Grows :
      (f : Folder) (m : Markers) (final by : String) (ids : List String)
      → Grows (log_of f) (log_of (left_by (sync_markers env f m final by ids)))
  sync_markers-Grows f m final by [] = same
  sync_markers-Grows f m final by (_ ∷ _) = sync_folded-Grows f m final by

  sync_after-Grows :
      (r : Run) (final by : String)
      → Grows (log_of (left_by r)) (log_of (left_by (sync_after env r final by)))
  unfolding sync_after
  sync_after-Grows (wrote f) final by = sync_markers-Grows f (parse_task_markers f.tasks) final by _
  sync_after-Grows (refused f) final by =
      sync_markers-Grows f (parse_task_markers f.tasks) final by _
  sync_after-Grows (raised f) final by = same

  pub sync_tasks-Grows :
      (f : Folder) (final by : String)
      → Grows (log_of f) (log_of (left_by (sync_tasks env f final by)))
  unfolding sync_tasks
  sync_tasks-Grows f final by = elim (IsShipped-cases f) [
    | inl shipped ↦ rw shipped same
    | inr live ↦ rw live (
        Grows-trans (materialize_log-Grows env f by)
          (sync_after-Grows (materialize_log env f by) final by))
  ]
