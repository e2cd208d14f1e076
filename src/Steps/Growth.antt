-- ===== src/Steps/Growth.antt =====
-- The lifecycle log behind the writers of `write-context.py`.
use saga_forge.Base.{
  Bool, true, false, ◌&&◌, ◌||◌, List, String, Option, none, refl, inl, inr, Bool-cases,
}
use saga_forge.Json.{get, Dict, is_str, truthy, obj}
use saga_forge.History.{Log, Kind, commit_log, start, complete, has_step_start}
use saga_forge.History.Grows.{Grows, same, begin, Grows-trans, Grows-finish, Grows-Extends}
use saga_forge.Context.{
  Folder, Env, Run, wrote, refused, raised, left_by, read_ctx, tick, is_more_advanced, open_ctx,
  atomic_write,
}
use saga_forge.Context.Written.{log_of, log_of-atomic_write}
use saga_forge.Context.Opening.{open_ctx_shipped, open_ctx_live, IsShipped-cases}
use saga_forge.Tasks.{materialize_log}
use saga_forge.Tasks.Growth.{materialize_log-Grows}
use saga_forge.Steps.Update.{Write, step_log, update_context, updated, time_of, timed}
use saga_forge.Steps.Finish.{
  Node, is_known, journal_finish, journal_advance, finish_opened, mark_spec_complete, promote,
  promote_after, closed_first, ticked, completed, from_implementing_at_100, advanced,
}

step_log-Grows :
    (k : Kind) (step : String) (substep : Option String) (by at : String) (log : Log)
    → Grows log (step_log k step substep by at log)
step_log-Grows complete step substep by at log = Grows-finish log step substep none by at (inr refl)
step_log-Grows start step substep by at log = elim (Bool-cases (has_step_start log step substep)) [
  | inl old ↦ rw old same
  | inr new ↦ rw new (begin step substep by at same refl)
]

abbrev written : Folder → Dict → Log → Folder
written f ctx log = atomic_write f (commit_log ctx log)

-- A write of a log that grew from the one on disk is that growth for the next reader.
write-Grows :
    (f : Folder) (ctx : Dict) (log : Log)
    → Grows (log_of f) log
    → Grows (log_of f) (log_of (written f ctx log))
write-Grows f ctx log grows = rw (log_of-atomic_write f ctx log (Grows-Extends grows)) grows

module _ (env : Env) where
  pub update_context-Grows :
      (w : Write) (f : Folder) → Grows (log_of f) (log_of (left_by (update_context env w f)))
  unfolding update_context
  update_context-Grows w f =
      elim (Bool-cases (truthy (obj (read_ctx f)) && is_more_advanced (read_ctx f) w.step)) [
        | inl past ↦ rw past same
        | inr open_still ↦ rw open_still (
            write-Grows (timed w.at f) (updated env w f) _
              (step_log-Grows w.kind w.step w.substep w.by (time_of w.at env f) (log_of f)))
      ]

  finish_opened-Grows :
      (f : Folder) (step : String) (substep : Option String) (by : String) (flip : Dict → Dict)
      → Grows
          (log_of f)
          (log_of (left_by (finish_opened env f step substep by flip (open_ctx env f))))
  finish_opened-Grows f step substep by flip = elim (IsShipped-cases f) [
    | inl shipped ↦ rw (open_ctx_shipped env f shipped) same
    | inr live ↦
        rw (open_ctx_live env f live)
          (write-Grows (tick f) _ _ (Grows-finish (log_of f) step substep none by _ (inr refl)))
  ]

  pub journal_finish-Grows :
      (nodes : List Node) (f : Folder) (step by : String) (substep : Option String)
      → Grows (log_of f) (log_of (left_by (journal_finish env nodes f step by substep)))
  unfolding journal_finish
  journal_finish-Grows nodes f step by substep = elim (Bool-cases (is_known nodes step)) [
    | inl known ↦ rw known (finish_opened-Grows f step substep by (λ ctx. ctx))
    | inr typo ↦ rw typo same
  ]

  pub journal_advance-Grows :
      (nodes : List Node) (f : Folder) (step by : String)
      → Grows (log_of f) (log_of (left_by (journal_advance env nodes f step by)))
  unfolding journal_advance
  journal_advance-Grows nodes f step by = elim (Bool-cases (is_known nodes step)) [
    | inl known ↦ rw known (finish_opened-Grows f step none by (advanced step))
    | inr typo ↦ rw typo same
  ]

  closed_first-Grows :
      (at_100 : Bool) (by : String) (f : Folder) (log : Log)
      → Grows log (closed_first env at_100 by f log)
  closed_first-Grows false by f log = same
  closed_first-Grows true by f log = Grows-finish log "implement" none none by _ (inl refl)

  promote-Grows :
      (at_100 : Bool) (by : String) (f : Folder)
      → Grows (log_of f) (log_of (promote env at_100 by f))
  unfolding promote
  promote-Grows at_100 by f =
      write-Grows (ticked env at_100 f) (completed env f) _
        (closed_first-Grows at_100 by f (log_of f))

  promote_after-Grows :
      (at_100 : Bool) (by : String) (r : Run)
      → Grows (log_of (left_by r)) (log_of (left_by (promote_after env at_100 by r)))
  unfolding promote_after
  promote_after-Grows at_100 by (wrote f) = promote-Grows at_100 by f
  promote_after-Grows at_100 by (refused f) = promote-Grows at_100 by f
  promote_after-Grows at_100 by (raised f) = same

  -- `mark_spec_complete` goes on to the promotion.
  abbrev pub promotes : Folder → Bool
  promotes f = is_str (get "status" (read_ctx f)) "implemented" || from_implementing_at_100 env f

  pub mark_spec_complete-Grows :
      (by : String) (f : Folder) → Grows (log_of f) (log_of (left_by (mark_spec_complete env by f)))
  unfolding mark_spec_complete
  mark_spec_complete-Grows by f = elim (IsShipped-cases f) [
    | inl shipped ↦ rw shipped same
    | inr live ↦ rw live (elim (Bool-cases (promotes f)) [
      | inl finished ↦ rw finished (
          Grows-trans (materialize_log-Grows env f by)
            (promote_after-Grows (from_implementing_at_100 env f) by (materialize_log env f by)))
      | inr unfinished ↦ rw unfinished same
    ])
  ]
