-- ===== src/Derive/Growth.antt =====
-- The lifecycle log behind `derive`.
use saga_forge.Base.{
  Bool, true, false, not, ◌&&◌, List, [], ◌∷◌, String, Option, none, some, str_eq, refl, inl, inr,
  Bool-cases, Extends, Extends-refl, Extends-trans, elem, keep,
}
use saga_forge.Json.{obj, truthy}
use saga_forge.History.{Log, complete_entry, has_step_start, journaled_tasks}
use saga_forge.Context.{Folder, Env, left_by, read_ctx, is_more_advanced}
use saga_forge.Context.Written.{log_of, log_of-atomic_write}
use saga_forge.Tasks.{Draft, Markers, parse_task_markers, distinct}
use saga_forge.Derive.Files.{
  infer, derive_finishes, derive_close, derive_tasks, derive_start, derive_open, derive_draft,
  derive_inferred, derive,
}

module _ (env : Env) (by : String) where
  derive_finishes-Extends :
      (tasks : List String) (d : Draft) → Extends d.log (derive_finishes env by tasks d).log
  unfolding derive_finishes
  derive_finishes-Extends [] d = Extends-refl d.log
  derive_finishes-Extends (task ∷ tasks) d =
      Extends-trans d.log _ _
        (complete_entry "implement" none (some task) by (env.now d.ticks) ∷ [], refl)
        (derive_finishes-Extends tasks _)

  derive_close-Extends : (b : Bool) (d : Draft) → Extends d.log (derive_close env by b d).log
  derive_close-Extends false d = Extends-refl d.log
  derive_close-Extends true d =
      (complete_entry "implement" none none by (env.now d.ticks) ∷ [], refl)

  derive_tasks-Extends : (m : Markers) (d : Draft) → Extends d.log (derive_tasks env by m d).log
  unfolding derive_tasks
  derive_tasks-Extends m d =
      Extends-trans d.log _ _
        (derive_finishes-Extends
          (keep (λ id. not (elem id (journaled_tasks d.log))) (distinct m.done_ids)) d)
        (derive_close-Extends _ _)

  derive_start-Extends :
      (step at : String) (log : Log) → Extends log (derive_start env by step at log)
  derive_start-Extends step at log = elim (Bool-cases (has_step_start log step none)) [
    | inl old ↦ rw old (Extends-refl log)
    | inr new ↦ rw new (_, refl)
  ]

  derive_draft-Extends :
      (f : Folder) (step status : String)
      → Extends (log_of f) (derive_draft env by f step status).log
  derive_draft-Extends f step status = elim (Bool-cases (str_eq step "implement")) [
    | inl implementing ↦ rw implementing (
        Extends-trans (log_of f) _ _ (derive_start-Extends step (env.now f.ticks) (log_of f))
          (derive_tasks-Extends (parse_task_markers f.tasks) (derive_open env by f step status)))
    | inr other ↦ rw other (derive_start-Extends step (env.now f.ticks) (log_of f))
  ]

  derive_inferred-Extends :
      (found : Option (String × String)) (f : Folder)
      → Extends (log_of f) (log_of (left_by (derive_inferred env by found f)))
  unfolding derive_inferred
  derive_inferred-Extends none f = Extends-refl (log_of f)
  derive_inferred-Extends (some (step, status)) f =
      elim (Bool-cases (truthy (obj (read_ctx f)) && is_more_advanced (read_ctx f) step)) [
        | inl past ↦ rw past (Extends-refl (log_of f))
        | inr open_still ↦
            let d = derive_draft env by f step status in
            rw
              (
                open_still,
                log_of-atomic_write (record f { ticks = d.ticks }) d.ctx d.log
                    (derive_draft-Extends f step status),
              )
              (derive_draft-Extends f step status)
      ]

  -- Whatever documents the folder holds, `derive` only adds to the end of the lifecycle log that a
  -- reader sees.
  pub derive-Extends :
      (plan : Bool) (f : Folder) → Extends (log_of f) (log_of (left_by (derive env by plan f)))
  unfolding derive
  derive-Extends plan f = derive_inferred-Extends (infer plan f) f
