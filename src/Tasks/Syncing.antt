-- ===== src/Tasks/Syncing.antt =====
-- The backstop `sync_tasks`: the ticked boxes of `tasks.md` and the log behind it.
use saga_forge.Base.{
  true, false, not, List, [], ◌∷◌, String, none, some, ◌≡◌, refl, sym, ap, ◌∙◌, ◌⊎◌, inl, inr,
  Bool-cases, elem, keep, str_eq, eq_iff, eq_refl, if◌then◌else◌,
}
use saga_forge.Json.{str, get}
use saga_forge.History.{has_complete, append_complete, journaled_tasks, commit_log}
use saga_forge.History.Completion.{append_complete-closes, has_complete-Extends}
use saga_forge.History.Grows.{Grows, Grows-Extends, Grows-trans}
use saga_forge.Context.{Folder, Env, read_ctx, wrote}
use saga_forge.Context.Opening.{IsLive}
use saga_forge.Context.Written.{log_of, log_of-atomic_write, get-atomic_write, get-commit_log}
use saga_forge.Tasks.Marks.{Markers, parse_task_markers}
use saga_forge.Tasks.Fold.{distinct, distinct_from, tasks_at_100, is_nil}
use saga_forge.Tasks.Journal.{Draft}
use saga_forge.Tasks.Sync.{
  append_fresh, sync_draft, sync_opened, sync_fresh, sync_folded, sync_after, sync_markers,
  sync_tasks,
}
use saga_forge.Tasks.Growth.{materialize_log_absent}
use saga_forge.Tasks.SyncGrowth.{append_fresh-Grows, close_all-Grows}
use saga_forge.Tasks.SyncPoints.{append_fresh-ctx, close_all-ctx, status-sync_context}

elem-distinct_from :
    (id : String) (seen ids : List String)
    → elem id ids ≡ true
    → elem id seen ≡ false
    → elem id (distinct_from seen ids) ≡ true
unfolding distinct_from
elem-distinct_from id seen [] h new = cc
elem-distinct_from id seen (x ∷ ids) h new = elim (Bool-cases (elem x seen)) [
  | inl old ↦ elim (Bool-cases (str_eq x id)) [
    | inl here ↦
        let same : x ≡ id = (eq_iff x id).0 here in
        let clash : true ≡ false = sym old ∙ ap (λ y. elem y seen) same ∙ new in cc
    | inr later ↦ rw old (elem-distinct_from id seen ids (rw later at h) new)
  ]
  | inr first ↦ elim (Bool-cases (str_eq x id)) [
    | inl here ↦ rw (first, here) refl
    | inr later ↦
        rw (first, later) (elem-distinct_from id (x ∷ seen) ids (rw later at h) (rw later new))
  ]
]

elem-distinct :
    (id : String) (ids : List String) → elem id ids ≡ true → elem id (distinct ids) ≡ true
unfolding distinct
elem-distinct id ids h = elem-distinct_from id [] ids h refl

elem-keep_new :
    (id : String) (known ids : List String)
    → elem id ids ≡ true
    → (elem id known ≡ true) ⊎ (elem id (keep (λ x. not (elem x known)) ids) ≡ true)
elem-keep_new id known [] h = cc
elem-keep_new id known (x ∷ ids) h = elim (Bool-cases (str_eq x id)) [
  | inl here ↦
      let same : x ≡ id = (eq_iff x id).0 here in
      elim (Bool-cases (elem id known)) [
        | inl old ↦ inl old
        | inr new ↦ inr (rw (same, new, eq_refl) refl)
      ]
  | inr later ↦ elim (elem-keep_new id known ids (rw later at h)) [
    | inl old ↦ inl old
    | inr new ↦ elim (Bool-cases (elem x known)) [
      | inl dropped ↦ inr (rw dropped new)
      | inr kept ↦ inr (rw (kept, later) new)
    ]
  ]
]

module _ (env : Env) where
  append_fresh-closes :
      (by id : String) (tasks : List String) (d : Draft)
      → elem id tasks ≡ true
      → has_complete (append_fresh env by tasks d).log "implement" (some id) ≡ true
  unfolding append_fresh
  append_fresh-closes by id [] d h = cc
  append_fresh-closes by id (task ∷ tasks) d h = elim (Bool-cases (str_eq task id)) [
    | inl here ↦
        let same : task ≡ id = (eq_iff task id).0 here in
        let now = append_complete d.log "implement" none (some task) by (env.now d.ticks) in
        has_complete-Extends now _ "implement" (some id)
          (Grows-Extends (append_fresh-Grows env by tasks _))
          (rw (← same) (
            append_complete-closes d.log "implement" none (some task) by (env.now d.ticks)
              (inl refl)))
    | inr later ↦ append_fresh-closes by id tasks _ (rw later at h)
  ]

  sync_markers_listed :
      (f : Folder) (m : Markers) (final by : String) (ids : List String)
      → is_nil ids ≡ false
      → sync_markers env f m final by ids ≡ wrote (sync_folded env f m final by)
  sync_markers_listed f m final by [] h = cc
  sync_markers_listed f m final by (_ ∷ _) h = refl

  module _ (f : Folder) (m : Markers) (final by : String) where
    sync_draft-Grows : Grows (log_of f) (sync_draft env f m final by).log
    unfolding sync_draft
    sync_draft-Grows =
        Grows-trans (append_fresh-Grows env by (sync_fresh env f m) (sync_opened env f m final))
          (close_all-Grows env (tasks_at_100 m) by _)

    log_of-sync_folded : log_of (sync_folded env f m final by) ≡ (sync_draft env f m final by).log
    unfolding sync_folded
    log_of-sync_folded =
        let d = sync_draft env f m final by in
        log_of-atomic_write (record f { ticks = d.ticks }) d.ctx d.log
          (Grows-Extends sync_draft-Grows)

    sync_folded-closes :
        (id : String)
        → elem id m.done_ids ≡ true
        → (elem id (journaled_tasks (log_of f)) ≡ true)
          ⊎ (has_complete (log_of (sync_folded env f m final by)) "implement" (some id) ≡ true)
    unfolding sync_draft
    sync_folded-closes id h =
        elim (elem-keep_new id (journaled_tasks (log_of f)) (distinct m.done_ids)
          (elem-distinct id m.done_ids h)) [
            | inl old ↦ inl old
            | inr new ↦
                let fresh = append_fresh env by (sync_fresh env f m) (sync_opened env f m final) in
                inr (
                  rw log_of-sync_folded (
                    has_complete-Extends fresh.log (sync_draft env f m final by).log "implement"
                      (some id) (Grows-Extends (close_all-Grows env (tasks_at_100 m) by fresh))
                      (append_fresh-closes by id (sync_fresh env f m) (sync_opened env f m final)
                        new)))
          ]

    status-sync_folded :
        get "status" (read_ctx (sync_folded env f m final by))
        ≡ str (if tasks_at_100 m then final else "implementing")
    unfolding sync_folded sync_draft
    status-sync_folded =
        let d = sync_draft env f m final by in
        get-atomic_write (record f { ticks = d.ticks }) (commit_log d.ctx d.log) "status" refl
        ∙ get-commit_log d.ctx d.log "status" refl
        ∙ ap (get "status") (
            close_all-ctx env (tasks_at_100 m) by _
            ∙ append_fresh-ctx env by (sync_fresh env f m) _)
        ∙ status-sync_context env m final _ _

  ticked_cases :
      (f : Folder) (m : Markers) (final by id : String)
      → (elem id m.done_ids ≡ false)
        ⊎ (elem id (journaled_tasks (log_of f)) ≡ true)
        ⊎ (has_complete (log_of (sync_folded env f m final by)) "implement" (some id) ≡ true)
  ticked_cases f m final by id = elim (Bool-cases (elem id m.done_ids)) [
    | inl ticked ↦ inr (sync_folded-closes f m final by id ticked)
    | inr unticked ↦ inl unticked
  ]

  -- On a spec that is not shipped and has no appended lines, whose `tasks.md` lists a task,
  -- `sync_tasks` writes. The status is then the final one if every box is ticked, and
  -- `implementing` if not, and a task whose box is ticked is complete in the log, unless the log
  -- named it before.
  pub sync_tasks-closes :
      (f : Folder) (final by id : String)
      → IsLive f
      → f.events ≡ none
      → is_nil (parse_task_markers f.tasks).all_ids ≡ false
      → (g : Folder) × (sync_tasks env f final by ≡ wrote g)
        × (get "status" (read_ctx g)
            ≡ str (if tasks_at_100 (parse_task_markers f.tasks) then final else "implementing"))
        × ((elem id (parse_task_markers f.tasks).done_ids ≡ false)
            ⊎ (elem id (journaled_tasks (log_of f)) ≡ true)
            ⊎ (has_complete (log_of g) "implement" (some id) ≡ true))
  unfolding sync_tasks sync_after
  sync_tasks-closes f final by id live no_events listed =
      let m = parse_task_markers f.tasks in
      (
        sync_folded env f m final by,
        rw (live, materialize_log_absent env f by no_events)
            (sync_markers_listed f m final by m.all_ids listed),
        status-sync_folded f m final by,
        ticked_cases f m final by id,
      )
