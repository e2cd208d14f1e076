-- ===== src/History/Completion.antt =====
-- `append_complete` and what `_has_complete` answers behind it.
use saga_forge.Base.{
  Extends, Bool, true, false, ◌&&◌, ◌||◌, [], ◌∷◌, ◌++◌, String, str_eq, eq_iff, eq_refl, Option,
  none, some, any-append, ◌≡◌, refl, ap, ◌∙◌, ◌⊎◌, inl, inr, arith, Bool-cases,
}
use saga_forge.Json.{Json}
use saga_forge.History.Entries.{
  Log, closes, has_complete, append_complete, complete_entry, finish_key, entry_kind,
}

-- Two finishes are of the same boundary: the step itself, or a part of that name.
abbrev pub same_part : Option String → Option String → Bool
same_part none none = true
same_part (some s) (some t) = str_eq s t
same_part _ _ = false

-- The entry that is appended closes its own boundary and no other.
pub closes-complete_entry :
    (step : String) (substep task : Option String) (by at : String) (s : String)
    (part : Option String)
    → (substep ≡ none) ⊎ (task ≡ none)
    → closes s part (complete_entry step substep task by at)
      ≡ (str_eq step s && same_part (finish_key substep task) part)
unfolding entry_kind
closes-complete_entry step none none by at s none h = ground arith
closes-complete_entry step none none by at s (some p) h = ground arith
closes-complete_entry step none (some t) by at s none h = ground arith
closes-complete_entry step none (some t) by at s (some p) h = ground arith
closes-complete_entry step (some u) none by at s none h = ground arith
closes-complete_entry step (some u) none by at s (some p) h = ground arith
closes-complete_entry step (some u) (some t) by at s p h = ground arith

same_part_refl : (p : Option String) → same_part p p ≡ true
same_part_refl none = refl
same_part_refl (some s) = eq_refl s

or_true : (b : Bool) → (b || (true && true)) ≡ true
or_true b = ground arith

has_complete-concat :
    (log : Log) (e : Json) (s : String) (part : Option String)
    → has_complete (log ++ e ∷ []) s part ≡ (has_complete log s part || closes s part e)
unfolding has_complete
has_complete-concat log e s part = ground (arith, any-append (closes s part) log (e ∷ []))

pub append_complete_old :
    (log : Log) (step : String) (substep task : Option String) (by at : String)
    → has_complete log step (finish_key substep task) ≡ true
    → append_complete log step substep task by at ≡ log
unfolding append_complete
append_complete_old log step substep task by at h = rw h

pub same_part→eq : (p q : Option String) → same_part p q ≡ true → p ≡ q
same_part→eq none none h = refl
same_part→eq none (some t) h = cc
same_part→eq (some s) none h = cc
same_part→eq (some s) (some t) h = ap some ((eq_iff s t).0 h)

-- A boundary that is complete stays so when its own finish is named again.
has_complete_again :
    (log : Log) (step : String) (key : Option String) (s : String) (part : Option String)
    → has_complete log step key ≡ true
    → has_complete log s part ≡ (has_complete log s part || (str_eq step s && same_part key part))
has_complete_again log step key s part h = elim (Bool-cases (str_eq step s)) [
  | inr other ↦ ground arith
  | inl same ↦ elim (Bool-cases (same_part key part)) [
    | inr other ↦ ground arith
    | inl here ↦
        let same_step : step ≡ s = (eq_iff step s).0 same in
        let closed : has_complete log s part ≡ true =
          rw (← same_step, ← same_part→eq key part here) h in
        ground arith
  ]
]

-- After a finish is appended, a boundary is complete exactly if it was complete before, or is the
-- one that the finish names. A finish names a substep or a task, never both.
pub has_complete-append_complete :
    (log : Log) (step : String) (substep task : Option String) (by at : String) (s : String)
    (part : Option String)
    → (substep ≡ none) ⊎ (task ≡ none)
    → has_complete (append_complete log step substep task by at) s part
      ≡ (has_complete log s part || (str_eq step s && same_part (finish_key substep task) part))
unfolding append_complete
has_complete-append_complete log step substep task by at s part h =
    elim (Bool-cases (has_complete log step (finish_key substep task))) [
      | inl old ↦ rw old (has_complete_again log step (finish_key substep task) s part old)
      | inr new ↦ rw new (
          has_complete-concat log (complete_entry step substep task by at) s part
          ∙ ap (λ b. has_complete log s part || b)
              (closes-complete_entry step substep task by at s part h))
    ]

-- The boundary that a finish names is complete behind it.
pub append_complete-closes :
    (log : Log) (step : String) (substep task : Option String) (by at : String)
    → (substep ≡ none) ⊎ (task ≡ none)
    → has_complete (append_complete log step substep task by at) step (finish_key substep task)
      ≡ true
append_complete-closes log step substep task by at h =
    has_complete-append_complete log step substep task by at step (finish_key substep task) h
    ∙ rw (eq_refl, same_part_refl (finish_key substep task)) (or_true _)

-- What is complete stays complete in a longer log.
pub has_complete-Extends :
    (log longer : Log) (step : String) (part : Option String)
    → Extends log longer
    → has_complete log step part ≡ true
    → has_complete longer step part ≡ true
unfolding has_complete
has_complete-Extends log longer step part (more, e) h =
    rw (e, any-append (closes step part) log more, h) refl

-- A finish that is appended twice, at whatever time and by whomever, is one finish.
pub append_complete-append_complete :
    (log : Log) (step : String) (substep task : Option String) (by at by' at' : String)
    → (substep ≡ none) ⊎ (task ≡ none)
    → append_complete (append_complete log step substep task by at) step substep task by' at'
      ≡ append_complete log step substep task by at
append_complete-append_complete log step substep task by at by' at' h =
    append_complete_old _ step substep task by' at' (
      has_complete-append_complete log step substep task by at step (finish_key substep task) h
      ∙ rw (eq_refl, same_part_refl (finish_key substep task)) (or_true _))
