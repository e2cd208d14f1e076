-- ===== src/Tasks/Folding.antt =====
-- The loop of `materialize_log` over the appended lines: the log behind it, and when it raises.
use saga_forge.Base.{
  Bool, true, false, ◌||◌, List, [], ◌∷◌, String, Option, none, some, str_eq, eq_iff, eq_refl, ◌≡◌,
  refl, sym, ap, ◌∙◌, inl, inr, Bool-cases, any, ◌⊎◌,
}
use saga_forge.History.{Log, has_complete}
use saga_forge.History.Completion.{
  append_complete-closes, append_complete_old, has_complete-Extends,
}
use saga_forge.History.Grows.{Grows-Extends}
use saga_forge.Context.{Folder, Env, EventLine, blank, torn, bare, event, Finish, wrote, raised}
use saga_forge.Context.Opening.{IsLive, primed}
use saga_forge.Context.Written.{log_of}
use saga_forge.Tasks.Marks.{Markers, parse_task_markers}
use saga_forge.Tasks.Journal.{
  Draft, opened, fold_line, fold_lines, fold_task, or_by, stamped, settle, materialize_log,
  materialize_folded,
}
use saga_forge.Tasks.Growth.{fold_lines-Grows, materialize_log_live, settle_log-Extends}

-- The line is JSON but no object.
abbrev pub is_bare : EventLine → Bool
is_bare bare = true
is_bare _ = false

-- The line is the finish of that task.
abbrev names : String → Option String → Bool
names task none = false
names task (some t) = str_eq t task

abbrev pub finishes : String → EventLine → Bool
finishes task (event e) = names task e.task
finishes task _ = false

or_true : (b : Bool) → (b || true) ≡ true
or_true true = refl
or_true false = refl

module _ (env : Env) (m : Markers) (by : String) where
  fold_lines_bare :
      (ls : List EventLine) (d : Draft) → any is_bare ls ≡ true → fold_lines env m by ls d ≡ none
  unfolding fold_lines fold_line
  fold_lines_bare [] d h = cc
  fold_lines_bare (blank ∷ ls) d h = fold_lines_bare ls d h
  fold_lines_bare (torn ∷ ls) d h = fold_lines_bare ls d h
  fold_lines_bare (bare ∷ ls) d h = refl
  fold_lines_bare (event e ∷ ls) d h = fold_lines_bare ls _ h

  fold_lines_sound :
      (ls : List EventLine) (d : Draft)
      → any is_bare ls ≡ false
      → (d' : Draft) × (fold_lines env m by ls d ≡ some d')
  unfolding fold_lines fold_line
  fold_lines_sound [] d h = (d, refl)
  fold_lines_sound (blank ∷ ls) d h = fold_lines_sound ls d h
  fold_lines_sound (torn ∷ ls) d h = fold_lines_sound ls d h
  fold_lines_sound (bare ∷ ls) d h = cc
  fold_lines_sound (event e ∷ ls) d h = fold_lines_sound ls _ h

  fold_task_closes :
      (task : String) (e : Finish) (t : Option String) (d : Draft)
      → names task t ≡ true
      → str_eq task "" ≡ false
      → has_complete (fold_task env m by e t d).log "implement" (some task) ≡ true
  fold_task_closes task e none d named nonempty = cc
  fold_task_closes task e (some t) d named nonempty =
      let same : t ≡ task = (eq_iff t task).0 named in
      rw (same, nonempty)
        (append_complete-closes d.log "implement" none (some task) (or_by env e.by by)
          (stamped env e.at d) (inl refl))

  fold_lines_closes :
      (task : String) (ls : List EventLine) (d d' : Draft)
      → fold_lines env m by ls d ≡ some d'
      → any (finishes task) ls ≡ true
      → str_eq task "" ≡ false
      → has_complete d'.log "implement" (some task) ≡ true
  unfolding fold_lines fold_line
  fold_lines_closes task [] d d' e h nonempty = cc
  fold_lines_closes task (blank ∷ ls) d d' e h nonempty =
      fold_lines_closes task ls d d' e h nonempty
  fold_lines_closes task (torn ∷ ls) d d' e h nonempty = fold_lines_closes task ls d d' e h nonempty
  fold_lines_closes task (bare ∷ ls) d d' e h nonempty = cc
  fold_lines_closes task (event x ∷ ls) d d' e h nonempty = elim (Bool-cases (names task x.task)) [
    | inl here ↦
        has_complete-Extends (fold_task env m by x x.task d).log d'.log "implement" (some task)
          (Grows-Extends (fold_lines-Grows env m by ls _ d' e))
          (fold_task_closes task x x.task d here nonempty)
    | inr later ↦ fold_lines_closes task ls _ d' e (rw later at h) nonempty
  ]

-- Each task that the lines finish is complete in the log already.
abbrev Folded : List EventLine → Log → Type 0
Folded ls log =
    (task : String)
    → any (finishes task) ls ≡ true
    → str_eq task "" ≡ false
    → has_complete log "implement" (some task) ≡ true

module _ (env : Env) (m : Markers) (by : String) where
  fold_task_again :
      (e : Finish) (t : Option String) (d : Draft)
      → ((task : String)
          → names task t ≡ true
          → str_eq task "" ≡ false
          → has_complete d.log "implement" (some task) ≡ true)
      → (fold_task env m by e t d).log ≡ d.log
  fold_task_again e none d done = refl
  fold_task_again e (some t) d done = elim (Bool-cases (str_eq t "")) [
    | inl nameless ↦ rw nameless
    | inr named ↦ rw named (
        append_complete_old d.log "implement" none (some t) (or_by env e.by by) (stamped env e.at d)
          (done t (eq_refl t) named))
  ]

  fold_lines_again :
      (ls : List EventLine) (d d' : Draft)
      → fold_lines env m by ls d ≡ some d'
      → Folded ls d.log
      → d'.log ≡ d.log
  unfolding fold_lines fold_line
  fold_lines_again [] d d' e done = let here : d ≡ d' = cc in ap (λ x. x.log) (sym here)
  fold_lines_again (blank ∷ ls) d d' e done = fold_lines_again ls d d' e done
  fold_lines_again (torn ∷ ls) d d' e done = fold_lines_again ls d d' e done
  fold_lines_again (bare ∷ ls) d d' e done = cc
  fold_lines_again (event x ∷ ls) d d' e done =
      let same : (fold_task env m by x x.task d).log ≡ d.log =
        fold_task_again x x.task d (λ task named nonempty. done task (rw named refl) nonempty) in
      fold_lines_again ls (fold_task env m by x x.task d) d' e (λ task later nonempty.
        rw same (done task (rw later (or_true (names task x.task))) nonempty))
      ∙ same

module _ (env : Env) where
  -- A second pass over the same appended lines, by whomever and whatever `tasks.md` then holds,
  -- adds nothing to the log: each finish counts once.
  pub fold_lines-fold_lines :
      (m m' : Markers) (by by' : String) (ls : List EventLine) (d first again last : Draft)
      → fold_lines env m by ls d ≡ some first
      → again.log ≡ first.log
      → fold_lines env m' by' ls again ≡ some last
      → last.log ≡ first.log
  fold_lines-fold_lines m m' by by' ls d first again last e same e' =
      fold_lines_again env m' by' ls again last e' (λ task there nonempty.
        rw same (fold_lines_closes env m by task ls d first e there nonempty))
      ∙ same

  -- Where a line of the events file is JSON but no object, folding it into a spec that is not
  -- shipped raises, and writes nothing of the other lines either.
  pub materialize_log_bare :
      (f : Folder) (by : String) (ls : List EventLine)
      → IsLive f
      → f.events ≡ some ls
      → any is_bare ls ≡ true
      → materialize_log env f by ≡ raised f
  unfolding materialize_folded
  materialize_log_bare f by ls live e h =
      materialize_log_live env f by ls live e
      ∙ ap (materialize_folded env f by)
          (fold_lines_bare env (parse_task_markers f.tasks) by ls _ h)

  -- The task has no name, no line finishes it, or it is complete in the log.
  abbrev pub Settled : List EventLine → String → Folder → Type 0
  Settled ls task g =
      (str_eq task "" ≡ true)
      ⊎ (any (finishes task) ls ≡ false)
      ⊎ (has_complete (log_of g) "implement" (some task) ≡ true)

  settle-Settled :
      (f : Folder) (by task : String) (ls : List EventLine) (d : Draft)
      → fold_lines env (parse_task_markers f.tasks) by ls (opened f (primed env f)) ≡ some d
      → Settled ls task (settle env f by d)
  settle-Settled f by task ls d folds =
      let m = parse_task_markers f.tasks in
      elim (Bool-cases (str_eq task "")) [
        | inl nameless ↦ inl nameless
        | inr named ↦ elim (Bool-cases (any (finishes task) ls)) [
          | inl there ↦ inr (
              inr (
                has_complete-Extends d.log (log_of (settle env f by d)) "implement" (some task)
                  (settle_log-Extends env f by d (fold_lines-Grows env m by ls _ d folds))
                  (fold_lines_closes env m by task ls _ d folds there named)))
          | inr missing ↦ inr (inl missing)
        ]
      ]

  -- Where each line of the events file is empty, torn or an object, the fold into a spec that is
  -- not shipped writes, and each task with a name that a line finishes is then complete in the log.
  pub materialize_log-finishes :
      (f : Folder) (by task : String) (ls : List EventLine)
      → IsLive f
      → f.events ≡ some ls
      → any is_bare ls ≡ false
      → (g : Folder) × (materialize_log env f by ≡ wrote g) × Settled ls task g
  unfolding materialize_folded
  materialize_log-finishes f by task ls live e sound =
      let m = parse_task_markers f.tasks in
      let (d, folds) = fold_lines_sound env m by ls (opened f (primed env f)) sound in
      (
        settle env f by d,
        materialize_log_live env f by ls live e ∙ ap (materialize_folded env f by) folds,
        settle-Settled f by task ls d folds,
      )
