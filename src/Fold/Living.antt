-- ===== src/Fold/Living.antt =====
-- What the whole of `fold_living_spec` may change on the disk.
use saga_forge.Base.{
  Bool, true, false, List, [], ◌∷◌, String, Option, none, some, ◌≡◌, refl, ◌⊎◌, inl, inr,
  Bool-cases, any, arith, keep, str_eq,
}
use saga_forge.Deltas.{Deltas, parse_spec_deltas, has_deltas}
use saga_forge.Resolver.{Entry, Repo, Tree, Answer, ok, value_error}
use saga_forge.Validate.{Finding, error, warning, check_feature_deltas}
use saga_forge.Fold.{
  Disk, text_at, Host, Outcome, unchanged, nothing_loaded, folded, shape_errors, FoldTargets,
  outcome_of, fold_answer, fold_text, fold_living_spec, Feature, known_of, marker_names,
  resolve_fold_targets,
}
use saga_forge.Fold.Guards.{IsLeft, may_leave, fold_targets-IsLeft}

-- The finding is an error of that capability.
abbrev pub is_error_of : String → Finding → Bool
is_error_of name f = elim f.severity [
  | warning ↦ false
  | error ↦ elim f.capability [ none ↦ false | some c ↦ str_eq c name ]
]

abbrev pub errors_of : Host → Disk → String → FoldTargets → String → List Finding
errors_of host d text ts name =
    keep (is_error_of name) (check_feature_deltas (known_of host d ts) text)

-- The targets of a feature spec
abbrev pub targets_of : Repo → Tree → Feature → String → Answer FoldTargets
targets_of repo tree f text =
    resolve_fold_targets repo tree f.changed f.capabilities
      (marker_names text (parse_spec_deltas text))

-- The text at the path is as it was, or one that a target of the feature spec may leave, and the
-- names that are recorded are those of the targets that were written.
abbrev pub Guarded :
    Host → Disk → (String → Answer FoldTargets) → Option String → String → Disk × Outcome → Type 0
Guarded host d targets spec path r =
    (text_at path r.0 ≡ text_at path d)
    ⊎ ((text : String) × (ts : FoldTargets) × (names : List String) × (spec ≡ some text)
        × (targets text ≡ ok ts)
        × (r.1 ≡ folded names)
        × IsLeft host (errors_of host d text ts) (parse_spec_deltas text) ts.default_name ts.entries
            path names (text_at path r.0))

not_both : {b : Bool} → b ≡ true → b ≡ false → ⊥
not_both h k = cc

module _ (host : Host) (d : Disk) (targets : String → Answer FoldTargets) (text path : String) where
  none_left :
      (blocked : String → List Finding) (deltas : Deltas) (name : Option String) (t : String)
      (es : List Entry)
      → any (may_leave host blocked deltas name path t []) es ≡ false
  none_left blocked deltas name t [] = refl
  none_left blocked deltas name t (e ∷ es) = ground (arith, none_left blocked deltas name t es)

  Guarded-outcome :
      (ts : FoldTargets) (now : Disk) (names : List String)
      → targets text ≡ ok ts
      → (text_at path now ≡ text_at path d)
        ⊎ IsLeft host
            (errors_of host d text ts)
            (parse_spec_deltas text)
            ts.default_name
            ts.entries
            path
            names
            (text_at path now)
      → Guarded host d targets (some text) path (outcome_of now names)
  Guarded-outcome ts now [] found (inl same) = inl same
  Guarded-outcome ts now [] found (inr (t, is_t, left)) =
      let no : ⊥ = not_both left (none_left _ _ _ t ts.entries) in elim no [ ]
  Guarded-outcome ts now (n ∷ ns) found (inl same) = inl same
  Guarded-outcome ts now (n ∷ ns) found (inr left) = inr (text, ts, n ∷ ns, refl, found, refl, left)

  Guarded-answer :
      (r : Answer FoldTargets)
      → targets text ≡ r
      → Guarded host d targets (some text) path (fold_answer host d text (parse_spec_deltas text) r)
  unfolding shape_errors
  Guarded-answer value_error found = inl refl
  Guarded-answer (ok ts) found = Guarded-outcome ts _ _ found (
      fold_targets-IsLeft host (errors_of host d text ts) (parse_spec_deltas text) ts.default_name
        ts.entries path (record { disk = d; synced = [] }))

abbrev quiet : Disk → List String → Disk × Outcome
quiet d [] = (d, nothing_loaded)
quiet d (_ ∷ _) = (d, unchanged)

Guarded-loaded :
    (host : Host) (d : Disk) (targets : String → Answer FoldTargets) (text path : String)
    (loaded : List String)
    → Guarded host d targets (some text) path (quiet d loaded)
Guarded-loaded host d targets text path [] = inl refl
Guarded-loaded host d targets text path (_ ∷ _) = inl refl

Guarded-text :
    (host : Host) (repo : Repo) (tree : Tree) (d : Disk) (f : Feature) (path : String)
    (spec : Option String)
    → Guarded host d (targets_of repo tree f) spec path (fold_text host repo tree d f spec)
Guarded-text host repo tree d f path none = inl refl
Guarded-text host repo tree d f path (some text) =
    elim (Bool-cases (has_deltas (parse_spec_deltas text))) [
      | inl some_deltas ↦
          rw some_deltas (Guarded-answer host d (targets_of repo tree f) text path _ refl)
      | inr no_deltas ↦
          rw no_deltas (Guarded-loaded host d (targets_of repo tree f) text path f.loaded)
    ]

-- A run of the fold leaves each file as it was, or with a text that a target of the feature spec may
-- leave, of those that `_resolve_fold_targets` gives: the target has deltas, the check of the feature
-- spec has no error for it, it is among the names that are recorded as synced, and the text has a
-- requirement or an open fence, unless the target is to be retired.
pub fold_living_spec-Guarded :
    (host : Host) (repo : Repo) (tree : Tree) (d : Disk) (f : Feature) (path : String)
    → Guarded host d (targets_of repo tree f) f.spec path (fold_living_spec host repo tree d f)
unfolding fold_living_spec
fold_living_spec-Guarded host repo tree d f path = elim (Bool-cases f.enabled) [
  | inl on ↦ rw on (Guarded-text host repo tree d f path f.spec)
  | inr off ↦ rw off (inl refl)
]
