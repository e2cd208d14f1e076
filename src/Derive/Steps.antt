-- ===== src/Derive/Steps.antt =====
-- The status and the current step behind `derive`.
use saga_forge.Base.{
  ℕ, Bool, true, false, not, ◌&&◌, List, [], ◌∷◌, String, Option, none, some, str_eq, refl, inl,
  inr, ◌≡◌, ◌∙◌, ap, Bool-cases, elem, keep,
}
use saga_forge.Json.{obj, str, truthy, get, put}
use saga_forge.Json.DictLaws.{get-put, get-put_self}
use saga_forge.History.{journaled_tasks}
use saga_forge.Context.{Folder, Env, left_by, read_ctx, fill_required, is_more_advanced}
use saga_forge.Tasks.{Draft, Markers, parse_task_markers, distinct}
use saga_forge.Lifecycle.Machine.{point_of, Moves, stay, next, enter}
use saga_forge.Lifecycle.TaskMoves.{Moves-write}
use saga_forge.Lifecycle.StepMoves.{not_past}
use saga_forge.Lifecycle.Progress.{has_reached, is_canonical, Moves-has_reached}
use saga_forge.Derive.Files.{
  infer, infer_from, derive_finishes, derive_close, derive_tasks, derive_open, derive_draft,
  derive_inferred, derive, covered,
}

module _ (env : Env) (by : String) where
  derive_finishes-ctx :
      (tasks : List String) (d : Draft) → (derive_finishes env by tasks d).ctx ≡ d.ctx
  unfolding derive_finishes
  derive_finishes-ctx [] d = refl
  derive_finishes-ctx (task ∷ tasks) d = derive_finishes-ctx tasks _

  derive_close-ctx : (b : Bool) (d : Draft) → (derive_close env by b d).ctx ≡ d.ctx
  derive_close-ctx false d = refl
  derive_close-ctx true d = refl

  get-derive_tasks :
      (m : Markers) (d : Draft) (k : String)
      → str_eq "currentTask" k ≡ false
      → get k (derive_tasks env by m d).ctx ≡ get k d.ctx
  unfolding derive_tasks
  get-derive_tasks m d k h =
      ap (get k) (derive_close-ctx _ _)
      ∙ get-put "currentTask" k _ _
      ∙ rw h (
          ap (get k) (
            derive_finishes-ctx
              (keep (λ id. not (elem id (journaled_tasks d.log))) (distinct m.done_ids)) d))

  get-derive_draft :
      (f : Folder) (step status k : String)
      → str_eq "currentTask" k ≡ false
      → get k (derive_draft env by f step status).ctx ≡ get k (derive_open env by f step status).ctx
  get-derive_draft f step status k h = elim (Bool-cases (str_eq step "implement")) [
    | inl implementing ↦
        rw implementing
          (get-derive_tasks (parse_task_markers f.tasks) (derive_open env by f step status) k h)
    | inr other ↦ rw other
  ]

  derive_inferred-Moves :
      (step status : String) (f : Folder)
      → is_canonical step ≡ true
      → Moves
          (λ _. true)
          is_canonical
          (point_of f)
          (point_of (left_by (derive_inferred env by (some (step, status)) f)))
  unfolding derive_inferred
  derive_inferred-Moves step status f known =
      elim (Bool-cases (truthy (obj (read_ctx f)) && is_more_advanced (read_ctx f) step)) [
        | inl past ↦ rw past (stay refl refl)
        | inr open_still ↦
            let d = derive_draft env by f step status in
            let base = put "currentStep" (str step) (fill_required env f (read_ctx f)) in
            rw open_still (
              Moves-write (record f { ticks = d.ticks }) d.ctx d.log
                (next (stay refl refl) (
                  enter step (some status) known refl (not_past (read_ctx f) step open_still)
                    (get-derive_draft f step status "status" refl
                      ∙ get-put_self "status" (str status) base)
                    (get-derive_draft f step status "currentStep" refl
                      ∙ get-put "status" "currentStep" (str status) base
                      ∙ get-put_self "currentStep" (str step) (fill_required env f (read_ctx f))))))
      ]

  derive_found-Moves :
      (tasks : Option String) (plan : Bool) (spec : Option String) (f : Folder)
      → Moves
          (λ _. true)
          is_canonical
          (point_of f)
          (point_of (left_by (derive_inferred env by (infer_from tasks plan spec) f)))
  derive_found-Moves none true spec f = derive_inferred-Moves "plan" "planned" f refl
  derive_found-Moves none false (some _) f = derive_inferred-Moves "specify" "specified" f refl
  derive_found-Moves none false none f = unfold derive_inferred in stay refl refl
  derive_found-Moves (some text) plan spec f =
      elim (Bool-cases (covered (parse_task_markers (some text)))) [
        | inl all ↦ rw all (derive_inferred-Moves "implement" "implemented" f refl)
        | inr open_still ↦ rw open_still (derive_inferred-Moves "tasks" "ready-to-implement" f refl)
      ]

  -- `derive` never moves the current step back: if it ranks at least `n` among the canonical steps
  -- before, with `converge` counted as `implement`, then it does after.
  pub derive-has_reached :
      (n : ℕ) (plan : Bool) (f : Folder)
      → has_reached n (point_of f).step ≡ true
      → has_reached n (point_of (left_by (derive env by plan f))).step ≡ true
  unfolding derive infer
  derive-has_reached n plan f h = Moves-has_reached n (derive_found-Moves f.tasks plan f.spec f) h
