-- ===== src/Lifecycle/Progress.antt =====
-- The current step's rank and the shipped statuses, along the machine's moves.
use saga_forge.Base.{
  ℕ, Bool, true, false, not, List, String, Option, none, some, ◌≡◌, ◌≤◌, refl, inl, inr, arith, leb,
  elem, str_eq, str_eq_sym, eq_iff, if◌then◌else◌, Bool-cases, Option-cases,
}
use saga_forge.Json.{Json, null, bool, num, str, arr, obj}
use saga_forge.Context.{
  Folder, canonical_steps, current_order, step_order, is_shipped, is_past, is_terminal,
  binding_order, step_completed_status, exceeds,
}
use saga_forge.Tasks.Points.{worked}
use saga_forge.Lifecycle.Commands.{Setting, Event, happen_all}
use saga_forge.Lifecycle.Machine.{
  Point, point_of, brought, Moves, stay, next, enter, pass, work, close, survey, ship,
}
use saga_forge.Lifecycle.Refinement.{allows_all, happen_all-Moves}

abbrev at_least : ℕ → Option ℕ → Bool
at_least n none = false
at_least n (some m) = leb n m

-- The current step is a canonical step of that rank or a later one.
abbrev pub has_reached : ℕ → Json → Bool
has_reached n step = at_least n (current_order step)

abbrev pub is_canonical : String → Bool
is_canonical step = elem step canonical_steps

-- No step ranks behind `implement`.
last_rank : (v : Json) (m : ℕ) → current_order v ≡ some m → m ≤ 5
last_rank (str s) m h = elim (Bool-cases (str_eq s "converge")) [
  | inl converging ↦ ground arith
  | inr other ↦ ground (arith, eq_iff s "converge", eq_iff "converge" s)
]
last_rank null m h = cc
last_rank (bool _) m h = cc
last_rank (num _) m h = cc
last_rank (arr _) m h = cc
last_rank (obj _) m h = cc

-- A canonical step has a rank.
rank_of : (step : String) → is_canonical step ≡ true → step_order step ≡ none → false ≡ true
rank_of step known missing = ground arith

-- What a step that is not past tells of the current one's rank.
below_rank :
    (k m : ℕ) (status current : Json)
    → current_order current ≡ some m
    → is_past (some k) status current ≡ false
    → exceeds (some m) k ≡ false
unfolding is_past
below_rank k m status current there open_still = elim (Bool-cases (is_terminal status)) [
  | inl over ↦ ground arith
  | inr live ↦ rw (live, there) at open_still
]

within_rank :
    (n m k : ℕ)
    → at_least n (some m) ≡ true
    → exceeds (some m) k ≡ false
    → at_least n (some k) ≡ true
within_rank n m k h open_still = ground arith

within_last : (n m : ℕ) → at_least n (some m) ≡ true → m ≤ 5 → at_least n (some 5) ≡ true
within_last n m h low = ground arith

-- A canonical step that the spec is not past ranks as high as the one that it stands at.
reached_entered :
    (n : ℕ) (step : String) (status current : Json)
    → is_canonical step ≡ true
    → is_past (binding_order step) status current ≡ false
    → has_reached n current ≡ true
    → has_reached n (str step) ≡ true
unfolding is_past
reached_entered n step status current known open_still h =
    elim (Option-cases (current_order current)) [
      | inl nowhere ↦ cc
      | inr (m, there) ↦
          let far : at_least n (some m) ≡ true = rw there at h in
          let low : m ≤ 5 = last_rank current m there in
          elim (Bool-cases (str_eq step "converge")) [
            | inl converging ↦ rw converging (within_last n m far low)
            | inr other ↦ elim (Option-cases (step_order step)) [
              | inl missing ↦ let absurd = rank_of step known missing in cc
              | inr (k, ranked) ↦
                  rw (other, ranked)
                    (within_rank n m k far
                      (below_rank k m status current there (rw (other, ranked) at open_still)))
            ]
          ]
    ]

reached_implement :
    (n m : ℕ) (current : Json)
    → current_order current ≡ some m
    → has_reached n current ≡ true
    → has_reached n (str "implement") ≡ true
reached_implement n m current there h = within_last n m (rw there at h) (last_rank current m there)

reached_last :
    (n : ℕ) (current : Json) → has_reached n current ≡ true → has_reached n (str "implement") ≡ true
reached_last n current h = elim (Option-cases (current_order current)) [
  | inl nowhere ↦ ground arith
  | inr (m, there) ↦ reached_implement n m current there h
]

-- The steps that have a completed status are canonical.
completable :
    (step status : String) → step_completed_status step ≡ some status → is_canonical step ≡ true
unfolding step_completed_status
completable step status h = ground (
  arith,
  str_eq_sym step "specify",
  str_eq_sym step "plan",
  str_eq_sym step "tasks",
  str_eq_sym step "implement",
)

pub Moves-has_reached :
    {statuses : Option String → Bool} {p q : Point} (n : ℕ)
    → Moves statuses is_canonical p q
    → has_reached n p.step ≡ true
    → has_reached n q.step ≡ true
Moves-has_reached n (stay a b) h = rw b h
Moves-has_reached n (next {q} ms (enter step status known ok open_still a b)) h =
    rw b (reached_entered n step q.status q.step known open_still (Moves-has_reached n ms h))
Moves-has_reached n (next {q} ms (pass step status known ok open_still a b)) h = rw b (
    reached_entered n step q.status q.step (completable step status known) open_still
      (Moves-has_reached n ms h))
Moves-has_reached n (next {q} ms (work at_100 a b)) h =
    rw b (reached_last n q.step (Moves-has_reached n ms h))
Moves-has_reached n (next ms (close live a b)) h = rw b (Moves-has_reached n ms h)
Moves-has_reached n (next {q} ms (survey at_100 status ok a b)) h =
    rw b (reached_last n q.step (Moves-has_reached n ms h))
Moves-has_reached n (next ms (ship ok built a (inl b))) h = rw b (Moves-has_reached n ms h)
Moves-has_reached n (next {q} ms (ship ok built a (inr b))) h =
    rw b (reached_last n q.step (Moves-has_reached n ms h))

-- The status, where one is named, is not that of a shipped spec.
abbrev pub is_unshipped : Option String → Bool
is_unshipped none = true
is_unshipped (some status) = not (is_shipped (str status))

live_brought :
    (status : Option String) (old : Json)
    → is_unshipped status ≡ true
    → is_shipped old ≡ false
    → is_shipped (brought status old) ≡ false
live_brought none old ok live = live
live_brought (some s) old ok live = ground arith

live_worked :
    (at_100 : Bool) (old : Json) → is_shipped old ≡ false → is_shipped (worked at_100 old) ≡ false
live_worked true old live = elim (Bool-cases (is_terminal old)) [
  | inl over ↦ rw over live
  | inr under_way ↦ rw under_way refl
]
live_worked false old live = elim (Bool-cases (is_terminal old)) [
  | inl over ↦ rw over live
  | inr under_way ↦ rw under_way refl
]

live_surveyed :
    (at_100 : Bool) (status : String)
    → is_unshipped (some status) ≡ true
    → is_shipped (str (if at_100 then status else "implementing")) ≡ false
live_surveyed true status ok = ground arith
live_surveyed false status ok = refl

Moves-live :
    {steps : String → Bool} {p q : Point}
    → Moves is_unshipped steps p q
    → is_shipped p.status ≡ false
    → is_shipped q.status ≡ false
Moves-live (stay a b) h = rw a h
Moves-live (next {q} ms (enter step status known ok open_still a b)) h =
    rw a (live_brought status q.status ok (Moves-live ms h))
Moves-live (next ms (pass step status known ok open_still a b)) h =
    rw a (live_brought (some status) null ok refl)
Moves-live (next {q} ms (work at_100 a b)) h = rw a (live_worked at_100 q.status (Moves-live ms h))
Moves-live (next ms (close live a b)) h = rw a refl
Moves-live (next ms (survey at_100 status ok a b)) h = rw a (live_surveyed at_100 status ok)
Moves-live (next ms (ship ok built a b)) h = cc

module _ (setting : Setting) where
  -- Where the calls name canonical steps only, the current step never falls back: if it ranks at
  -- least `n` among the canonical steps before, with `converge` counted as `implement`, then it
  -- does after any calls and edits.
  pub happen_all-has_reached :
      (n : ℕ) (es : List Event) (f : Folder)
      → allows_all (λ _. true) is_canonical es ≡ true
      → has_reached n (point_of f).step ≡ true
      → has_reached n (point_of (happen_all setting es f)).step ≡ true
  happen_all-has_reached n es f ok h =
      Moves-has_reached n (happen_all-Moves (λ _. true) is_canonical setting es f ok) h

  -- Only `mark_spec_complete` ships a spec, or a caller that names a shipped status: calls without
  -- these leave a spec that is not shipped so.
  pub happen_all-live :
      (es : List Event) (f : Folder)
      → allows_all is_unshipped (λ _. true) es ≡ true
      → is_shipped (point_of f).status ≡ false
      → is_shipped (point_of (happen_all setting es f)).status ≡ false
  happen_all-live es f ok h =
      Moves-live (happen_all-Moves is_unshipped (λ _. true) setting es f ok) h
