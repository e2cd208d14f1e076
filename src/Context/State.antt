-- ===== src/Context/State.antt =====
-- The feature folder, what a run takes from outside it, and the status and step vocabulary.
use saga_forge.Base.{
  ℕ, suc, Bool, true, false, List, [], ◌∷◌, String, Option, none, some, str_eq, if◌then◌else◌, ltb,
}
use saga_forge.Json.{Json, str, obj, Dict, empty, is_one_of, is_str}

-- `.spec-context.json`: not there, unreadable as JSON, or a document.
pub data Stored : Type 0 where
  absent broken : Stored
  document : Json → Stored

-- The keys of an appended finish that the fold reads, typed as `append_task_log` writes them. A
-- key that is not there is `none`, and no files are an empty list.
pub record Finish : Type 0 where
  pub task : Option String
  pub by : Option String
  pub did : Option String
  pub files : List String
  pub at : Option String

-- A line of `.spec-context.events.jsonl` behind its `strip`: empty, no JSON, JSON that is no
-- object, or an object.
pub data EventLine : Type 0 where
  blank torn bare : EventLine
  event : Finish → EventLine

-- The feature folder. `open_end` says that the last line of the events file has no line break behind
-- it, and `ticks` counts the calls of `_now_iso` so far.
pub record Folder : Type 0 where
  pub context : Stored
  pub spec : Option String
  pub tasks : Option String
  pub events : Option (List EventLine)
  pub open_end : Bool
  pub ticks : ℕ

-- What a run finds outside the folder: the folder's name, the branch that git gives for the
-- repository and for the folder itself, the clock, by the number of calls, and what `json.loads` makes
-- of the lines behind the first where the line of a finish has characters at which `str.splitlines`
-- splits.
pub record Env : Type 0 where
  pub name : String
  pub branch : Option String
  pub checked_out : Option String
  pub now : ℕ → String
  pub behind_break : Finish → List EventLine

-- `_git_branch(…) or "main"`; git never gives an empty name.
abbrev pub branch_or_main : Option String → String
branch_or_main none = "main"
branch_or_main (some b) = b

abbrev dict_of : Json → Dict
dict_of (obj d) = d
dict_of _ = empty

abbrev pub loaded : Stored → Dict
loaded absent = empty
loaded broken = empty
loaded (document v) = dict_of v

-- Absence and corruption are an empty context.
abbrev pub read_ctx : Folder → Dict
read_ctx f = loaded f.context

abbrev pub tick : Folder → Folder
tick f = record f { ticks = suc f.ticks }

abbrev pub canonical_steps : List String
canonical_steps =
    "specify" ∷ "clarify" ∷ "plan" ∷ "tasks" ∷ "analyze" ∷ "implement" ∷ "converge" ∷ []

-- `STEP_ORDER`
abbrev pub order_from : ℕ → List String → String → Option ℕ
order_from n [] s = none
order_from n (t ∷ ts) s = if str_eq t s then some n else order_from (suc n) ts s

abbrev pub step_order : String → Option ℕ
step_order = order_from 0 canonical_steps

-- `STEP_COMPLETED_STATUS.get(step)`
unfoldable pub step_completed_status : String → Option String
step_completed_status s =
    if str_eq s "specify"
    then some "specified"
    else if str_eq s "plan"
    then some "planned"
    else if str_eq s "tasks"
    then some "ready-to-implement"
    else if str_eq s "implement"
    then some "implemented"
    else none

-- `CROSS_STEP_TERMINAL` and `_SHIPPED_STATUSES`, which are one set. A status that is a list or an
-- object, where the look-up in the set raises TypeError, is left out, and read as one that is not
-- in it.
abbrev pub is_shipped : Json → Bool
is_shipped v = is_one_of v ("completed" ∷ "archived" ∷ [])

-- `TERMINAL_STATUSES`
abbrev pub is_terminal : Json → Bool
is_terminal v = is_one_of v ("implemented" ∷ "completed" ∷ "archived" ∷ [])

abbrev pub order_of : Json → Option ℕ
order_of (str s) = step_order s
order_of _ = none

-- `cur`: a spec in `converge` ranks as one in `implement`.
abbrev pub current_order : Json → Option ℕ
current_order v = if is_str v "converge" then step_order "implement" else order_of v

abbrev pub exceeds : Option ℕ → ℕ → Bool
exceeds none n = false
exceeds (some m) n = ltb n m

-- The ranking behind `_is_more_advanced`; `none` is a step outside the canonical order.
unfoldable pub is_past : Option ℕ → Json → Json → Bool
is_past none status current = is_shipped status
is_past (some n) status current =
    if is_terminal status then true else exceeds (current_order current) n

-- The order that binds a step: none for `converge` and for a step of the project's own.
abbrev pub binding_order : String → Option ℕ
binding_order s = if str_eq s "converge" then none else step_order s

-- How a call ends: it wrote the context, it left it alone, or Python raised. The folder is the
-- one that it leaves in each case.
pub data Run : Type 0 where
  wrote refused raised : Folder → Run

abbrev pub left_by : Run → Folder
left_by (wrote f) = f
left_by (refused f) = f
left_by (raised f) = f
