-- ===== src/Lifecycle/StepMoves.antt =====
-- The calls on steps as moves of the lifecycle machine.
use saga_forge.Base.{
  ℕ, Bool, true, false, ◌&&◌, List, String, Option, none, some, str_eq, ◌≡◌, refl, ap, inl, inr,
  ◌∙◌, Bool-cases,
}
use saga_forge.Json.{null, str, obj, Dict, empty, entry, get, put, truthy, is_str}
use saga_forge.Json.DictLaws.{get-put, get-put_self, get-pop}
use saga_forge.History.{Kind, start, complete, canonical_log, has_complete}
use saga_forge.Context.{
  Folder, Env, left_by, read_ctx, tick, fill_required, is_more_advanced, is_past, binding_order,
  step_completed_status, open_ctx,
}
use saga_forge.Context.Opening.{open_ctx_shipped, open_ctx_live, IsShipped-cases}
use saga_forge.Context.Required.{get-fill_required}
use saga_forge.Steps.{
  Write, Node, is_known, updated, update_context, is_late, timed, advanced, finish_opened,
  journal_finish, journal_advance, record_branch, branch_for, move_status, or_put,
}
use saga_forge.Lifecycle.Machine.{
  point, point_of, brought, Moves, Moves-trans, stay, next, enter, pass,
}
use saga_forge.Lifecycle.TaskMoves.{Moves-write, Moves-filled}

abbrev is_branch_key : String → Bool
is_branch_key k = str_eq "workingBranch" k

get-record_branch :
    (b : Option String) (ctx : Dict) (k : String)
    → is_branch_key k ≡ false
    → get k (record_branch b ctx) ≡ get k ctx
get-record_branch none ctx k h = refl
get-record_branch (some b) ctx k h = elim (Bool-cases (str_eq b "HEAD")) [
  | inl detached ↦ rw detached
  | inr named ↦ rw named (elim (Bool-cases (is_str (get "branch" ctx) b)) [
    | inl same ↦ rw same (get-pop "workingBranch" k ctx h)
    | inr other ↦ rw other (get-put "workingBranch" k (str b) ctx ∙ rw h)
  ])
]

get-branch_for :
    (kind : Kind) (env : Env) (ctx : Dict) (k : String)
    → is_branch_key k ≡ false
    → get k (branch_for kind env ctx) ≡ get k ctx
get-branch_for start env ctx k h = get-record_branch env.checked_out ctx k h
get-branch_for complete env ctx k h = refl

status-move_status :
    (status : Option String) (ctx : Dict)
    → get "status" (move_status false status ctx) ≡ brought status (get "status" ctx)
status-move_status none ctx = refl
status-move_status (some s) ctx = get-put_self "status" (str s) ctx

step-move_status :
    (status : Option String) (ctx : Dict)
    → get "currentStep" (move_status false status ctx) ≡ get "currentStep" ctx
step-move_status none ctx = refl
step-move_status (some s) ctx = get-put "status" "currentStep" (str s) ctx

-- An empty context is past no step.
past_empty : (o : Option ℕ) → is_past o null null ≡ false
unfolding is_past
past_empty none = refl
past_empty (some n) = refl

fresh_open :
    (ctx : Dict) (step : String) → truthy (obj ctx) ≡ false → is_more_advanced ctx step ≡ false
unfolding is_more_advanced
fresh_open empty step h = past_empty (binding_order step)
fresh_open (entry k v d) step h = cc

pub not_past :
    (ctx : Dict) (step : String)
    → (truthy (obj ctx) && is_more_advanced ctx step) ≡ false
    → is_past (binding_order step) (get "status" ctx) (get "currentStep" ctx) ≡ false
unfolding is_more_advanced
not_past ctx step h = elim (Bool-cases (truthy (obj ctx))) [
  | inl filled ↦ rw filled at h
  | inr empty_one ↦ unfold is_more_advanced in fresh_open ctx step empty_one
]

module _ {statuses : Option String → Bool} {steps : String → Bool} (env : Env) where
  Move-updated :
      (w : Write) (f : Folder)
      → statuses w.status ≡ true
      → steps w.step ≡ true
      → is_past (binding_order w.step) (point_of f).status (point_of f).step ≡ false
      → Moves statuses steps (point_of f) (point (updated env w f))
  unfolding updated
  Move-updated w f ok named open_still =
      let filled = fill_required env f (read_ctx f) in
      let at_branch = branch_for w.kind env filled in
      let status_there =
        get-branch_for w.kind env filled "status" refl
        ∙ get-fill_required env f (read_ctx f) "status" refl in
      let step_there =
        get-branch_for w.kind env filled "currentStep" refl
        ∙ get-fill_required env f (read_ctx f) "currentStep" refl in
      elim (Bool-cases
        (is_late w.kind w.substep (has_complete (canonical_log (read_ctx f)) w.step none))) [
          | inl late ↦ rw late (stay status_there step_there)
          | inr timely ↦ rw timely (
              next (stay refl refl) (
                enter w.step w.status named ok open_still
                  (status-move_status w.status (put "currentStep" (str w.step) at_branch)
                    ∙ ap (brought w.status)
                        (get-put "currentStep" "status" (str w.step) at_branch ∙ status_there))
                  (step-move_status w.status (put "currentStep" (str w.step) at_branch)
                    ∙ get-put_self "currentStep" (str w.step) at_branch)))
        ]

  pub update_context-Moves :
      (w : Write) (f : Folder)
      → statuses w.status ≡ true
      → steps w.step ≡ true
      → Moves statuses steps (point_of f) (point_of (left_by (update_context env w f)))
  unfolding update_context
  update_context-Moves w f ok named =
      elim (Bool-cases (truthy (obj (read_ctx f)) && is_more_advanced (read_ctx f) w.step)) [
        | inl past ↦ rw past (stay refl refl)
        | inr open_still ↦ rw open_still (
            Moves-write (timed w.at f) (updated env w f) _
              (Move-updated w f ok named (not_past (read_ctx f) w.step open_still)))
      ]

  get-or_put :
      (status : Option String) (step : String) (ctx : Dict)
      → statuses status ≡ true
      → step_completed_status step ≡ status
      → is_past (binding_order step) (get "status" ctx) (get "currentStep" ctx) ≡ false
      → Moves statuses steps (point ctx) (point (or_put status step ctx))
  get-or_put none step ctx ok known open_still = stay refl refl
  get-or_put (some s) step ctx ok known open_still = next (stay refl refl) (
      pass step s known ok open_still
        (get-put "currentStep" "status" (str step) (put "status" (str s) ctx)
          ∙ get-put_self "status" (str s) ctx)
        (get-put_self "currentStep" (str step) (put "status" (str s) ctx)))

  Moves-advanced :
      (step : String) (ctx : Dict)
      → statuses (step_completed_status step) ≡ true
      → Moves statuses steps (point ctx) (point (advanced step ctx))
  unfolding advanced is_more_advanced
  Moves-advanced step ctx ok =
      elim (Bool-cases (is_past (binding_order step) (get "status" ctx) (get "currentStep" ctx))) [
        | inl past ↦ rw past (stay refl refl)
        | inr open_still ↦
            rw open_still (get-or_put (step_completed_status step) step ctx ok refl open_still)
      ]

  finish_opened-Moves :
      (f : Folder) (step : String) (substep : Option String) (by : String) (flip : Dict → Dict)
      → ((ctx : Dict) → Moves statuses steps (point ctx) (point (flip ctx)))
      → Moves statuses steps
          (point_of f)
          (point_of (left_by (finish_opened env f step substep by flip (open_ctx env f))))
  finish_opened-Moves f step substep by flip moved = elim (IsShipped-cases f) [
    | inl shipped ↦ rw (open_ctx_shipped env f shipped) (stay refl refl)
    | inr live ↦ rw (open_ctx_live env f live) (
        Moves-write (tick f) _ _
          (Moves-trans (Moves-filled env f) (moved (fill_required env f (read_ctx f)))))
  ]

  pub journal_finish-Moves :
      (nodes : List Node) (f : Folder) (step by : String) (substep : Option String)
      → Moves statuses steps
          (point_of f)
          (point_of (left_by (journal_finish env nodes f step by substep)))
  unfolding journal_finish
  journal_finish-Moves nodes f step by substep = elim (Bool-cases (is_known nodes step)) [
    | inl known ↦
        rw known (finish_opened-Moves f step substep by (λ ctx. ctx) (λ ctx. stay refl refl))
    | inr typo ↦ rw typo (stay refl refl)
  ]

  pub journal_advance-Moves :
      (nodes : List Node) (f : Folder) (step by : String)
      → statuses (step_completed_status step) ≡ true
      → Moves statuses steps (point_of f) (point_of (left_by (journal_advance env nodes f step by)))
  unfolding journal_advance
  journal_advance-Moves nodes f step by ok = elim (Bool-cases (is_known nodes step)) [
    | inl known ↦
        rw known
          (finish_opened-Moves f step none by (advanced step) (λ ctx. Moves-advanced step ctx ok))
    | inr typo ↦ rw typo (stay refl refl)
  ]
