-- ===== src/Derive/Position.antt =====
-- Where `resolve` of `status-context.py` takes the spec to stand: as recorded, or as its documents show.
use saga_forge.Base.{
  ℕ, zero, suc, Bool, true, false, not, ◌||◌, [], ◌∷◌, String, Option, none, some, ltb, str_eq,
  elem, is_some, if◌then◌else◌,
}
use saga_forge.Json.{Json, str, get, truthy}
use saga_forge.Context.{Folder, read_ctx}
use saga_forge.Derive.Files.{infer}

-- `PIPELINE_ORDER`
abbrev pipeline_order : String → Option ℕ
pipeline_order s =
    if elem s ("specify" ∷ "clarify" ∷ [])
    then some 0
    else if str_eq s "plan"
    then some 1
    else if elem s ("tasks" ∷ "analyze" ∷ [])
    then some 2
    else if elem s ("implement" ∷ "converge" ∷ [])
    then some 3
    else none

-- Whether the file of `REQUIRED_FILE` is there, by the order of the step
abbrev has_required : Bool → Folder → ℕ → Bool
has_required plan f zero = is_some f.spec
has_required plan f (suc zero) = plan
has_required plan f (suc (suc n)) = is_some f.tasks

abbrev is_later : Option ℕ → ℕ → Bool
is_later none n = false
is_later (some m) n = ltb n m

abbrev prefer_by : Bool → Folder → Option ℕ → String → Bool
prefer_by plan f none disk = true
prefer_by plan f (some n) disk = not (has_required plan f n) || is_later (pipeline_order disk) n

-- `_should_prefer_disk`
unfoldable pub should_prefer_disk : Bool → Folder → String → String → Bool
should_prefer_disk plan f recorded disk = prefer_by plan f (pipeline_order recorded) disk

pub record Position : Type 0 where
  pub step : String
  pub status : Json

abbrev pub inferred : Option (String × String) → Option Position
inferred none = none
inferred (some (step, status)) = some (record { step = step; status = str status })

abbrev text_of : Json → String
text_of (str s) = s
text_of _ = ""

abbrev reconciled : Bool → Folder → Position → Option (String × String) → Option Position
reconciled plan f p none = some p
reconciled plan f p (some (step, status)) =
    if should_prefer_disk plan f p.step step then inferred (some (step, status)) else some p

-- The step and the status of the report; none where there is nothing to summarize.
unfoldable pub position : Bool → Folder → Option Position
unfolding infer should_prefer_disk
position plan f =
    let ctx = read_ctx f in
    let recorded : Position = record {
      step = text_of (get "currentStep" ctx);
      status = get "status" ctx;
    } in
    if truthy (get "currentStep" ctx)
    then reconciled plan f recorded (infer plan f)
    else inferred (infer plan f)
