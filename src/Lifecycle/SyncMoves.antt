-- ===== src/Lifecycle/SyncMoves.antt =====
-- The backstop `sync_tasks` as a sequence of moves of the lifecycle machine.
use saga_forge.Base.{Bool, true, List, [], ◌∷◌, String, Option, some, ◌≡◌, refl, inl, inr}
use saga_forge.Context.{Folder, Env, Run, wrote, refused, raised, left_by}
use saga_forge.Context.Opening.{IsShipped-cases}
use saga_forge.Tasks.{
  materialize_log, sync_tasks, sync_folded, sync_markers, sync_after, Markers, parse_task_markers,
  tasks_at_100,
}
use saga_forge.Lifecycle.Machine.{Point, point_of, Moves, Moves-trans, stay, next, survey}
use saga_forge.Tasks.SyncPoints.{
  append_fresh-ctx, close_all-ctx, status-sync_context, step-sync_context,
}
use saga_forge.Lifecycle.TaskMoves.{Moves-write, Moves-filled, materialize_log-Moves}

module _ {statuses : Option String → Bool} {steps : String → Bool} (env : Env) where
  module _ (final by : String) (ok : statuses (some final) ≡ true) where
    sync_folded-Moves :
        (f : Folder) (m : Markers)
        → Moves statuses steps (point_of f) (point_of (sync_folded env f m final by))
    unfolding sync_folded
    sync_folded-Moves f m = Moves-write _ _ _ (
        rw (close_all-ctx env (tasks_at_100 m) by, append_fresh-ctx env by)
          (next (Moves-filled env f) (
            survey (tasks_at_100 m) final ok (status-sync_context env m final _ _)
              (step-sync_context env m final _ _))))

    sync_markers-Moves :
        (f : Folder) (m : Markers) (ids : List String)
        → Moves statuses steps (point_of f) (point_of (left_by (sync_markers env f m final by ids)))
    sync_markers-Moves f m [] = stay refl refl
    sync_markers-Moves f m (_ ∷ _) = sync_folded-Moves f m

    sync_after-Moves :
        {p : Point} (r : Run)
        → Moves statuses steps p (point_of (left_by r))
        → Moves statuses steps p (point_of (left_by (sync_after env r final by)))
    unfolding sync_after
    sync_after-Moves (wrote f) ms =
        Moves-trans ms (sync_markers-Moves f (parse_task_markers f.tasks) _)
    sync_after-Moves (refused f) ms =
        Moves-trans ms (sync_markers-Moves f (parse_task_markers f.tasks) _)
    sync_after-Moves (raised f) ms = ms

    pub sync_tasks-Moves :
        (f : Folder)
        → Moves statuses steps (point_of f) (point_of (left_by (sync_tasks env f final by)))
    unfolding sync_tasks
    sync_tasks-Moves f = elim (IsShipped-cases f) [
      | inl shipped ↦ rw shipped (stay refl refl)
      | inr live ↦
          rw live (sync_after-Moves (materialize_log env f by) (materialize_log-Moves env f by))
    ]
