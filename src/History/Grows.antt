-- ===== src/History/Grows.antt =====
-- How the writers make a log grow: by finishes and by starts. What holds along such a growth.
use saga_forge.Base.{
  ℕ, ◌+◌, ◌≤◌, Bool, true, false, ◌&&◌, [], ◌∷◌, ◌++◌, String, Option, none, str_eq, ◌≡◌, refl, ◌⊎◌,
  inl, inr, arith, Bool-cases, Extends, Extends-refl, Extends-trans, eq_iff,
}
use saga_forge.Json.{Json}
use saga_forge.History.Entries.{
  Log, closes, has_complete, append_complete, start_entry, finish_key, entry_kind,
}
use saga_forge.History.Completion.{closes-complete_entry, same_part, same_part→eq}
use saga_forge.History.AppendOnly.{append_complete-Extends}

-- From one log to another by finishes, each of a substep or of a task, and by starts.
pub data Grows (from : Log) : Log → Type 0 where
  same : Grows from from
  finish :
      {log next : Log} (step : String) (substep task : Option String) (by at : String)
      → Grows from log
      → (substep ≡ none) ⊎ (task ≡ none)
      → next ≡ append_complete log step substep task by at
      → Grows from next
  begin :
      {log next : Log} (step : String) (substep : Option String) (by at : String)
      → Grows from log
      → next ≡ log ++ start_entry step substep by at ∷ []
      → Grows from next

pub Grows-trans : {a b c : Log} → Grows a b → Grows b c → Grows a c
Grows-trans p same = p
Grows-trans p (finish step substep task by at q one e) =
    finish step substep task by at (Grows-trans p q) one e
Grows-trans p (begin step substep by at q e) = begin step substep by at (Grows-trans p q) e

pub Grows-finish :
    (log : Log) (step : String) (substep task : Option String) (by at : String)
    → (substep ≡ none) ⊎ (task ≡ none)
    → Grows log (append_complete log step substep task by at)
Grows-finish log step substep task by at one = finish step substep task by at same one refl

pub Grows-Extends : {a b : Log} → Grows a b → Extends a b
Grows-Extends {a} same = Extends-refl a
Grows-Extends {a} (finish {log} {next} step substep task by at p one e) =
    Extends-trans a log next (Grows-Extends p)
      (rw e (append_complete-Extends log step substep task by at))
Grows-Extends {a} (begin {log} {next} step substep by at p e) =
    Extends-trans a log next (Grows-Extends p) (start_entry step substep by at ∷ [], e)

abbrev pub as_count : Bool → ℕ
as_count true = 1
as_count false = 0

-- How many entries of a log close a boundary.
abbrev pub completions : String → Option String → Log → ℕ
completions step part [] = 0
completions step part (e ∷ log) = as_count (closes step part e) + completions step part log

-- No boundary is closed twice.
abbrev pub IsUnique : Log → Type 0
IsUnique log = (step : String) (part : Option String) → completions step part log ≤ 1

completions-concat :
    (step : String) (part : Option String) (log : Log) (e : Json)
    → completions step part (log ++ e ∷ [])
      ≡ completions step part log + as_count (closes step part e)
completions-concat step part [] e = omega arith
completions-concat step part (x ∷ log) e = omega (arith, completions-concat step part log e)

completions_none :
    (step : String) (part : Option String) (log : Log)
    → has_complete log step part ≡ false
    → completions step part log ≡ 0
unfolding has_complete
completions_none step part [] h = refl
completions_none step part (e ∷ log) h = ground (arith, completions_none step part log)

append_complete-IsUnique :
    (log : Log) (step : String) (substep task : Option String) (by at : String)
    → (substep ≡ none) ⊎ (task ≡ none)
    → IsUnique log
    → IsUnique (append_complete log step substep task by at)
unfolding append_complete
append_complete-IsUnique log step substep task by at one u s part =
    elim (Bool-cases (has_complete log step (finish_key substep task))) [
      | inl old ↦ rw old (u s part)
      | inr new ↦
          rw
            (
              new,
              completions-concat s part log _,
              closes-complete_entry step substep task by at s part one,
            )
            (at_most_one new)
    ]
  where
    at_most_one :
        has_complete log step (finish_key substep task) ≡ false
        → completions s part log
            + as_count (str_eq step s && same_part (finish_key substep task) part)
          ≤ 1
    at_most_one new =
        elim (Bool-cases (str_eq step s && same_part (finish_key substep task) part)) [
          | inr other ↦ rw other (omega (arith, u s part))
          | inl here ↦
              let step_is : step ≡ s = (eq_iff step s).0 (ground arith) in
              let part_is : finish_key substep task ≡ part = same_part→eq _ part (ground arith) in
              rw here (omega (arith, completions_none s part log (rw (step_is, part_is) at new)))
        ]

-- A log in which no boundary is closed twice grows into one in which none is.
pub Grows-IsUnique : {a b : Log} → Grows a b → IsUnique a → IsUnique b
unfolding entry_kind
Grows-IsUnique same u = u
Grows-IsUnique (finish {log} {next} step substep task by at p one e) u =
    rw e (append_complete-IsUnique log step substep task by at one (Grows-IsUnique p u))
Grows-IsUnique (begin {log} {next} step substep by at p e) u =
    λ s part. rw (e, completions-concat s part log _) (ground (arith, Grows-IsUnique p u s part))
