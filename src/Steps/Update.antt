-- ===== src/Steps/Update.antt =====
-- `update_context`: the write of a step's start or completion.
use saga_forge.Base.{
  ℕ, suc, Bool, true, false, ◌&&◌, [], ◌∷◌, ◌++◌, String, Option, none, some, if◌then◌else◌, str_eq,
}
use saga_forge.Json.{str, obj, Dict, get, put, pop, is_str, truthy}
use saga_forge.History.{
  Log, Kind, start, complete, start_entry, append_complete, canonical_log, commit_log, has_complete,
  has_step_start,
}
use saga_forge.Context.{
  Folder, Env, Run, wrote, refused, read_ctx, atomic_write, fill_required, is_more_advanced,
}

-- A checked out branch other than `HEAD`, which git names when no branch is checked out.
abbrev pub record_branch : Option String → Dict → Dict
record_branch none ctx = ctx
record_branch (some branch) ctx =
    if str_eq branch "HEAD"
    then ctx
    else if is_str (get "branch" ctx) branch
    then pop "workingBranch" ctx
    else put "workingBranch" (str branch) ctx

abbrev pub branch_for : Kind → Env → Dict → Dict
branch_for start env ctx = record_branch env.checked_out ctx
branch_for complete env ctx = ctx

-- A start that lands after its step already finished.
abbrev pub is_late : Kind → Option String → Bool → Bool
is_late start none finished = finished
is_late _ _ finished = false

abbrev pub move_step : Bool → String → Dict → Dict
move_step true step ctx = ctx
move_step false step ctx = put "currentStep" (str step) ctx

abbrev pub move_status : Bool → Option String → Dict → Dict
move_status false (some status) ctx = put "status" (str status) ctx
move_status _ _ ctx = ctx

abbrev pub step_log : Kind → String → Option String → String → String → Log → Log
step_log complete step substep by at log = append_complete log step substep none by at
step_log start step substep by at log =
    if has_step_start log step substep then log else log ++ start_entry step substep by at ∷ []

-- `at or _now_iso()`
abbrev pub time_of : Option String → Env → Folder → String
time_of none env f = env.now f.ticks
time_of (some at) env f = if str_eq at "" then env.now f.ticks else at

abbrev ticks_after : Option String → ℕ → ℕ
ticks_after none n = suc n
ticks_after (some at) n = if str_eq at "" then suc n else n

abbrev pub timed : Option String → Folder → Folder
timed at f = record f { ticks = ticks_after at f.ticks }

-- The arguments of a write.
pub record Write : Type 0 where
  pub step : String
  pub status : Option String
  pub by : String
  pub kind : Kind
  pub substep : Option String
  pub at : Option String

module _ (env : Env) where
  unfoldable pub updated : Write → Folder → Dict
  updated w f =
      let ctx = read_ctx f in
      let late = is_late w.kind w.substep (has_complete (canonical_log ctx) w.step none) in
      move_status late w.status
        (move_step late w.step (branch_for w.kind env (fill_required env f ctx)))

  unfoldable pub update_context : Write → Folder → Run
  unfolding updated
  update_context w f =
      let ctx = read_ctx f in
      if truthy (obj ctx) && is_more_advanced ctx w.step
      then refused (timed w.at f)
      else wrote (
          atomic_write (timed w.at f) (
            commit_log (updated w f)
              (step_log w.kind w.step w.substep w.by (time_of w.at env f) (canonical_log ctx))))
