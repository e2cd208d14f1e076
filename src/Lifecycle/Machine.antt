-- ===== src/Lifecycle/Machine.antt =====
-- The lifecycle as a machine on the status and the current step, without the log, the summaries
-- and the files: which moves there are, and under which guard.
use saga_forge.Base.{
  [], ◌∷◌, Bool-cases, refl, ◌∙◌, inl, inr, Bool, true, false, String, Option, none, some, ◌≡◌, ◌⊎◌,
  if◌then◌else◌,
}
use saga_forge.Json.{is_one_of, Json, str, Dict, get}
use saga_forge.Tasks.Points.{worked}
use saga_forge.Context.{
  Folder, read_ctx, is_past, binding_order, is_terminal, is_shipped, step_completed_status,
}

pub record Point : Type 0 where
  pub status : Json
  pub step : Json

abbrev pub point : Dict → Point
point d = record { status = get "status" d; step = get "currentStep" d }

abbrev pub point_of : Folder → Point
point_of f = point (read_ctx f)

-- A status that a caller names, or the one that is there.
abbrev pub brought : Option String → Json → Json
brought none old = old
brought (some s) old = str s

-- The implement step is under way or done.
abbrev pub is_built : Json → Bool
is_built v = is_one_of v ("implementing" ∷ "implemented" ∷ [])

-- A call that completes a spec: from a built one, or it moves nothing.
abbrev pub Completes : Point → Point → Type 0
Completes p q = (is_built p.status ≡ true) ⊎ ((q.status ≡ p.status) × (q.step ≡ p.step))

-- The moves, for callers that name only such statuses and steps. `q` is where the move leads.
pub data Move (statuses : Option String → Bool) (steps : String → Bool) (p q : Point) : Type 0 where
  enter :
      (step : String) (status : Option String)
      → steps step ≡ true
      → statuses status ≡ true
      → is_past (binding_order step) p.status p.step ≡ false
      → q.status ≡ brought status p.status
      → q.step ≡ str step
      → Move statuses steps p q
  pass :
      (step status : String)
      → step_completed_status step ≡ some status
      → statuses (some status) ≡ true
      → is_past (binding_order step) p.status p.step ≡ false
      → q.status ≡ str status
      → q.step ≡ str step
      → Move statuses steps p q
  work :
      (at_100 : Bool)
      → q.status ≡ worked at_100 p.status
      → q.step ≡ str "implement"
      → Move statuses steps p q
  close :
      is_shipped p.status ≡ false
      → q.status ≡ str "implemented"
      → q.step ≡ p.step
      → Move statuses steps p q
  survey :
      (at_100 : Bool) (status : String)
      → statuses (some status) ≡ true
      → q.status ≡ str (if at_100 then status else "implementing")
      → q.step ≡ str "implement"
      → Move statuses steps p q
  ship :
      statuses (some "completed") ≡ true
      → is_built p.status ≡ true
      → q.status ≡ str "completed"
      → (q.step ≡ p.step) ⊎ (q.step ≡ str "implement")
      → Move statuses steps p q

-- Moves one after the other.
pub data Moves (statuses : Option String → Bool) (steps : String → Bool) (p : Point)
    : Point → Type 0 where
  stay : {q : Point} → q.status ≡ p.status → q.step ≡ p.step → Moves statuses steps p q
  next :
      {q r : Point} → Moves statuses steps p q → Move statuses steps q r → Moves statuses steps p r

module _ {statuses : Option String → Bool} {steps : String → Bool} where
  -- Moves end as well at a point that reads alike.
  pub Moves-to :
      {p q : Point} (r : Point)
      → r.status ≡ q.status
      → r.step ≡ q.step
      → Moves statuses steps p q
      → Moves statuses steps p r
  Moves-to r s t (stay a b) = stay (s ∙ a) (t ∙ b)
  Moves-to r s t (next ms (enter step status ok named open_still a b)) =
      next ms (enter step status ok named open_still (s ∙ a) (t ∙ b))
  Moves-to r s t (next ms (pass step status known ok open_still a b)) =
      next ms (pass step status known ok open_still (s ∙ a) (t ∙ b))
  Moves-to r s t (next ms (work at_100 a b)) = next ms (work at_100 (s ∙ a) (t ∙ b))
  Moves-to r s t (next ms (close live a b)) = next ms (close live (s ∙ a) (t ∙ b))
  Moves-to r s t (next ms (survey at_100 status ok a b)) =
      next ms (survey at_100 status ok (s ∙ a) (t ∙ b))
  Moves-to r s t (next ms (ship ok built a (inl b))) = next ms (ship ok built (s ∙ a) (inl (t ∙ b)))
  Moves-to r s t (next ms (ship ok built a (inr b))) = next ms (ship ok built (s ∙ a) (inr (t ∙ b)))

  pub Moves-trans :
      {p q r : Point}
      → Moves statuses steps p q
      → Moves statuses steps q r
      → Moves statuses steps p r
  Moves-trans {p} {q} {r} ms (stay a b) = Moves-to r a b ms
  Moves-trans ms (next ns m) = next (Moves-trans ms ns) m

is_built-worked : (at_100 : Bool) (v : Json) → is_built v ≡ true → is_built (worked at_100 v) ≡ true
is_built-worked true v h = elim (Bool-cases (is_terminal v)) [
  | inl over ↦ rw over h
  | inr live ↦ rw live refl
]
is_built-worked false v h = elim (Bool-cases (is_terminal v)) [
  | inl over ↦ rw over h
  | inr live ↦ rw live refl
]

-- Where the callers name nothing, only the task journal moves, and it keeps a spec built.
pub Moves-is_built :
    {steps : String → Bool} {p q : Point}
    → Moves (λ _. false) steps p q
    → is_built p.status ≡ true
    → is_built q.status ≡ true
Moves-is_built (stay a b) h = rw a h
Moves-is_built {steps} {p} (next {q} ms (work at_100 a b)) h =
    rw a (is_built-worked at_100 q.status (Moves-is_built ms h))
Moves-is_built (next ms (close live a b)) h = rw a refl
Moves-is_built (next ms (enter step status named ok open_still a b)) h = cc
Moves-is_built (next ms (pass step status known ok open_still a b)) h = cc
Moves-is_built (next ms (survey at_100 status ok a b)) h = cc
Moves-is_built (next ms (ship ok built a b)) h = cc
