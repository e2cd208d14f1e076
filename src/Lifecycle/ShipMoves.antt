-- ===== src/Lifecycle/ShipMoves.antt =====
-- `mark_spec_complete` as moves of the lifecycle machine.
use saga_forge.Base.{
  Bool, true, false, ◌||◌, String, Option, some, ◌≡◌, ◌⊎◌, refl, inl, inr, ◌∙◌, arith, Bool-cases,
  str_eq,
}
use saga_forge.Json.{null, str, Dict, get, put, set_default, truthy}
use saga_forge.Json.DictLaws.{get-put, get-put_self, get-set_default_self}
use saga_forge.Context.{Folder, Env, Run, wrote, refused, raised, left_by, read_ctx, fill_required}
use saga_forge.Context.Opening.{IsShipped-cases}
use saga_forge.Context.Required.{get-fill_required}
use saga_forge.Tasks.{materialize_log}
use saga_forge.Steps.{
  completed, promote, promote_after, ticked, from_implementing_at_100, mark_spec_complete,
  note_unverified, has_entries, unverified,
}
use saga_forge.Steps.Growth.{promotes}
use saga_forge.Lifecycle.Machine.{
  Point, point_of, is_built, Completes, Moves, Moves-is_built, stay, next, ship,
}
use saga_forge.Lifecycle.TaskMoves.{Moves-write, materialize_log-Moves}

module _ (env : Env) where
  get-note_unverified :
      (ctx : Dict) (k : String)
      → str_eq "concerns" k ≡ false
      → get k (note_unverified env ctx) ≡ get k ctx
  get-note_unverified ctx k h =
      elim (Bool-cases (has_entries env (get "verified" ctx) || truthy (get "concerns" ctx))) [
        | inl noted ↦ rw noted
        | inr bare_one ↦ rw bare_one (get-put "concerns" k (unverified env) ctx ∙ rw h)
      ]

  status-completed : (f : Folder) → get "status" (completed env f) ≡ str "completed"
  status-completed f =
      let opened = set_default "currentStep" (str "implement") (fill_required env f (read_ctx f)) in
      get-note_unverified (put "currentTask" null (put "status" (str "completed") opened)) "status"
        refl
      ∙ get-put "currentTask" "status" null (put "status" (str "completed") opened)
      ∙ get-put_self "status" (str "completed") opened

  step-completed :
      (f : Folder)
      → (get "currentStep" (completed env f) ≡ get "currentStep" (read_ctx f))
        ⊎ (get "currentStep" (completed env f) ≡ str "implement")
  step-completed f =
      let filled = fill_required env f (read_ctx f) in
      let opened = set_default "currentStep" (str "implement") filled in
      let same =
        get-note_unverified (put "currentTask" null (put "status" (str "completed") opened))
          "currentStep" refl
        ∙ get-put "currentTask" "currentStep" null (put "status" (str "completed") opened)
        ∙ get-put "status" "currentStep" (str "completed") opened in
      elim (get-set_default_self "currentStep" (str "implement") filled) [
        | inl old ↦ inl (same ∙ old ∙ get-fill_required env f (read_ctx f) "currentStep" refl)
        | inr new ↦ inr (same ∙ new)
      ]

  promotes_built :
      (f : Folder) → promotes env f ≡ true → is_built (get "status" (read_ctx f)) ≡ true
  promotes_built f h = ground arith

  module _ {statuses : Option String → Bool} {steps : String → Bool}
      (ok : statuses (some "completed") ≡ true) where
    promote-Moves :
        {p : Point} (at_100 : Bool) (by : String) (f : Folder)
        → is_built (get "status" (read_ctx f)) ≡ true
        → Moves statuses steps p (point_of f)
        → Moves statuses steps p (point_of (promote env at_100 by f))
    unfolding promote
    promote-Moves at_100 by f built ms =
        Moves-write (ticked env at_100 f) (completed env f) _
          (next ms (ship ok built (status-completed f) (step-completed f)))

    promote_after-Moves :
        {p : Point} (at_100 : Bool) (by : String) (r : Run)
        → is_built (get "status" (read_ctx (left_by r))) ≡ true
        → Moves statuses steps p (point_of (left_by r))
        → Moves statuses steps p (point_of (left_by (promote_after env at_100 by r)))
    unfolding promote_after
    promote_after-Moves at_100 by (wrote f) built ms = promote-Moves at_100 by f built ms
    promote_after-Moves at_100 by (refused f) built ms = promote-Moves at_100 by f built ms
    promote_after-Moves at_100 by (raised f) built ms = ms

    pub mark_spec_complete-Moves :
        (by : String) (f : Folder)
        → Moves statuses steps (point_of f) (point_of (left_by (mark_spec_complete env by f)))
    unfolding mark_spec_complete
    mark_spec_complete-Moves by f = elim (IsShipped-cases f) [
      | inl shipped ↦ rw shipped (stay refl refl)
      | inr live ↦ rw live (elim (Bool-cases (promotes env f)) [
        | inl finished ↦ rw finished (
            promote_after-Moves (from_implementing_at_100 env f) by (materialize_log env f by)
              (Moves-is_built {steps = λ _. false} (materialize_log-Moves env f by)
                (promotes_built f finished))
              (materialize_log-Moves env f by))
        | inr unfinished ↦ rw unfinished (stay refl refl)
      ])
    ]

  -- A spec is completed from a built status; else its status and step stay.
  pub mark_spec_complete-Completes :
      (by : String) (f : Folder)
      → Completes (point_of f) (point_of (left_by (mark_spec_complete env by f)))
  unfolding mark_spec_complete
  mark_spec_complete-Completes by f = elim (Bool-cases (promotes env f)) [
    | inl finished ↦ inl (promotes_built f finished)
    | inr unfinished ↦ elim (IsShipped-cases f) [
      | inl shipped ↦ rw shipped (inr (refl, refl))
      | inr live ↦ rw (live, unfinished) (inr (refl, refl))
    ]
  ]
