-- ===== src/Tasks/Journal.antt =====
-- `journal_task_finish`, `append_task_log`, `materialize_log` and `close_task`.
use saga_forge.Base.{
  ℕ, suc, Bool, true, false, not, ◌&&◌, ◌||◌, List, [], ◌∷◌, String, code, ◌==◌, Option, none, some,
  if◌then◌else◌, str_eq,
}
use saga_forge.Json.{Dict, get}
use saga_forge.History.{Log, append_complete, commit_log, journaled_tasks}
use saga_forge.Context.{
  Folder, Env, EventLine, blank, torn, bare, event, Finish, Run, wrote, refused, raised, read_ctx,
  tick, is_shipped, open_ctx, atomic_write,
}
use saga_forge.Tasks.Marks.{Markers, parse_task_markers}
use saga_forge.Tasks.Boxes.{mark_tasks_done}
use saga_forge.Tasks.Fold.{fold_context, close_log, close_context, closes_implement}

-- A context that is being changed, its log, and the clock readings taken so far.
pub record Draft : Type 0 where
  pub ctx : Dict
  pub log : Log
  pub ticks : ℕ

-- A text without the characters that `json.dumps(…, ensure_ascii=False)` leaves as they are, and at
-- which `str.splitlines` splits. It escapes the control characters among those.
abbrev pub stays_whole : String → Bool
stays_whole String.[] = true
stays_whole (String.◌∷◌ k s) =
    let c = code k in not (c == 0x85 || c == 0x2028 || c == 0x2029) && stays_whole s

abbrev pub option_whole : Option String → Bool
option_whole none = true
option_whole (some s) = stays_whole s

abbrev pub all_whole : List String → Bool
all_whole [] = true
all_whole (s ∷ ss) = stays_whole s && all_whole ss

-- The line of a finish is one line for `str.splitlines`.
abbrev pub is_one_line : Finish → Bool
is_one_line e =
    option_whole e.task
    && option_whole e.by
    && option_whole e.did
    && all_whole e.files
    && option_whole e.at

abbrev pub opened : Folder → Dict × Log → Draft
opened f (ctx, log) = record { ctx = ctx; log = log; ticks = f.ticks }

-- `commit_log(ctx, log)` and `atomic_write(target, ctx)`.
abbrev pub publish : Folder → Draft → Folder
publish f d = atomic_write (record f { ticks = d.ticks }) (commit_log d.ctx d.log)

-- `_fold_task_finish`, with its clock reading given.
abbrev pub fold_finish :
    Markers → String → String → Option String → List String → String → Draft → Draft
fold_finish m task by did files at d = record d {
  ctx = fold_context m task did files d.ctx;
  log = append_complete d.log "implement" none (some task) by at;
}

-- `_maybe_close_implement`: the clock is read when the step closes.
unfoldable pub maybe_close : Env → Markers → String → Draft → Draft
maybe_close env m by d = record {
  ctx = close_context m d.log d.ctx;
  log = close_log m by (env.now d.ticks) d.log;
  ticks = if closes_implement m d.log then suc d.ticks else d.ticks;
}

abbrev pub next_tick : Draft → Draft
next_tick d = record d { ticks = suc d.ticks }

module _ (env : Env) where
  unfoldable pub journal_opened :
      Folder → String → String → Option String → List String → Option (Dict × Log) → Run
  journal_opened f task by did files none = refused f
  journal_opened f task by did files (some draft) =
      let f' = record f { tasks = mark_tasks_done f.tasks (task ∷ []) } in
      let m = parse_task_markers f'.tasks in
      let d = opened f draft in
      let folded = fold_finish m task by did files (env.now d.ticks) (next_tick d) in
      wrote (publish f' (maybe_close env m by folded))

  unfoldable pub journal_task_finish : Folder → String → String → Option String → List String → Run
  unfolding journal_opened
  journal_task_finish f task by did files = journal_opened f task by did files (open_ctx env f)

  -- `if did`: an empty text is left out, as no text is.
  abbrev pub nonempty : Option String → Option String
  nonempty none = none
  nonempty (some s) = if str_eq s "" then none else some s

  abbrev pub event_lines : Option (List EventLine) → List EventLine
  event_lines none = []
  event_lines (some ls) = ls

  -- What is appended, which carries its own time.
  abbrev pub finish_of : String → String → Option String → List String → String → Finish
  finish_of task by did files at = record {
    task = some task;
    by = some by;
    did = nonempty did;
    files = files;
    at = some at;
  }

  -- The lines that the written line is read as: a piece up to a character at which `str.splitlines`
  -- splits is no JSON.
  abbrev pub lines_of : Finish → List EventLine
  lines_of e = if is_one_line e then event e ∷ [] else torn ∷ env.behind_break e

  -- The appended lines begin where the file ends: behind a last line without a line break, the first
  -- of them is the rest of that line.
  abbrev pub join_onto : EventLine → List EventLine → List EventLine
  join_onto l [] = l ∷ []
  join_onto blank (n ∷ ns) = n ∷ ns
  join_onto l (n ∷ ns) = torn ∷ ns

  unfoldable pub appended_lines : Bool → List EventLine → List EventLine → List EventLine
  appended_lines open_end [] new = new
  appended_lines open_end (l ∷ []) new = if open_end then join_onto l new else l ∷ new
  appended_lines open_end (l ∷ m ∷ ls) new = l ∷ appended_lines open_end (m ∷ ls) new

  unfoldable pub append_task_log : Folder → String → String → Option String → List String → Run
  unfolding appended_lines
  append_task_log f task by did files =
      if is_shipped (get "status" (read_ctx f))
      then refused f
      else wrote (record (tick f) {
        events = some (
            appended_lines f.open_end (event_lines f.events)
              (lines_of (finish_of task by did files (env.now f.ticks))));
        open_end = false;
      })

  abbrev pub or_by : Option String → String → String
  or_by none by = by
  or_by (some b) by = b

  -- `e.get("at") or _now_iso()`
  abbrev pub stamped : Option String → Draft → String
  stamped none d = env.now d.ticks
  stamped (some at) d = if str_eq at "" then env.now d.ticks else at

  abbrev pub stamp_ticks : Option String → ℕ → ℕ
  stamp_ticks none n = suc n
  stamp_ticks (some at) n = if str_eq at "" then suc n else n

  abbrev pub fold_task : Markers → String → Finish → Option String → Draft → Draft
  fold_task m by e none d = d
  fold_task m by e (some task) d =
      if str_eq task ""
      then d
      else fold_finish m task (or_by e.by by) e.did e.files (stamped e.at d)
          (record d { ticks = stamp_ticks e.at d.ticks })

  -- One line of the loop: `none` is the exception that `e.get` raises on a value that is no object.
  unfoldable pub fold_line : Markers → String → EventLine → Draft → Option Draft
  fold_line m by blank d = some d
  fold_line m by torn d = some d
  fold_line m by bare d = none
  fold_line m by (event e) d = some (fold_task m by e e.task d)

  abbrev pub and_then : Option Draft → (Draft → Option Draft) → Option Draft
  and_then none k = none
  and_then (some d) k = k d

  unfoldable pub fold_lines : Markers → String → List EventLine → Draft → Option Draft
  fold_lines m by [] d = some d
  fold_lines m by (l ∷ ls) d = and_then (fold_line m by l d) (fold_lines m by ls)

  -- What follows the loop: the checkboxes, the step's close, and the write.
  unfoldable pub settle : Folder → String → Draft → Folder
  settle f by d =
      let f' = record f { tasks = mark_tasks_done f.tasks (journaled_tasks d.log) } in
      publish f' (maybe_close env (parse_task_markers f'.tasks) by d)

  unfoldable pub materialize_folded : Folder → String → Option Draft → Run
  materialize_folded f by none = raised f
  materialize_folded f by (some d) = wrote (settle f by d)

  unfoldable pub materialize_opened : Folder → String → List EventLine → Option (Dict × Log) → Run
  materialize_opened f by ls none = refused f
  materialize_opened f by ls (some draft) =
      materialize_folded f by (fold_lines (parse_task_markers f.tasks) by ls (opened f draft))

  unfoldable pub materialize_events : Folder → String → Option (List EventLine) → Run
  unfolding materialize_opened materialize_folded
  materialize_events f by none = refused f
  materialize_events f by (some ls) = materialize_opened f by ls (open_ctx env f)

  unfoldable pub materialize_log : Folder → String → Run
  unfolding materialize_events
  materialize_log f by = materialize_events f by f.events

  -- `folded or appended`: the call wrote if either part did.
  unfoldable pub close_folded : Run → Run
  close_folded (wrote f) = wrote f
  close_folded (refused f) = wrote f
  close_folded (raised f) = raised f

  unfoldable pub close_appended : Run → String → Run
  close_appended (wrote f) by = close_folded (materialize_log f by)
  close_appended (refused f) by = materialize_log f by
  close_appended (raised f) by = raised f

  unfoldable pub close_task : Folder → String → String → Option String → List String → Run
  unfolding close_appended close_folded
  close_task f task by did files = close_appended (append_task_log f task by did files) by
