-- ===== src/Capture/Lifecycle.antt =====
-- The capture writers of `capture.py`, by what they do to the log, the status and the current step.
use saga_forge.Base.{
  true, false, List, [], ◌∷◌, String, Option, none, some, str_eq, eq_iff, ◌≡◌, refl, ap, ◌∙◌, arith,
  Bool-cases, inl, inr,
}
use saga_forge.Json.{
  Json, null, bool, num, str, arr, obj, Items, Dict, get, put, to_list, of_list, of_list-to_list,
}
use saga_forge.Json.DictLaws.{get-put, get-put_self}
use saga_forge.History.{canonical_log, log_or}
use saga_forge.History.AppendOnly.{splice_self}
use saga_forge.Context.{
  Folder, Env, left_by, read_ctx, atomic_write, guard_append_only, guarded, guard_with,
  history_on_disk,
}
use saga_forge.Context.Required.{get-fill_required, is_free}
use mathlib.Core.Path.{subst, ap₂}
use saga_forge.Text.{strip}
use saga_forge.Context.Written.{log_of, get-atomic_write, history_on_disk-loaded}
use saga_forge.Capture.Writers.{
  is_protected, base, save, set_pairs, set_split, set_key, set_fields, split_pair,
}

-- Two contexts read alike at the lifecycle's keys.
abbrev pub Agree : Dict → Dict → Type 0
Agree d e = (k : String) → is_protected k ≡ true → get k d ≡ get k e

-- Two folders are at the same point of the lifecycle.
pub record SameLifecycle (f g : Folder) : Type 0 where
  pub log : log_of g ≡ log_of f
  pub status : get "status" (read_ctx g) ≡ get "status" (read_ctx f)
  pub step : get "currentStep" (read_ctx g) ≡ get "currentStep" (read_ctx f)

pub SameLifecycle-refl : (f : Folder) → SameLifecycle f f
SameLifecycle-refl f = record { log = refl; status = refl; step = refl }

put-Agree :
    (field : String) (v : Json) (d e : Dict)
    → is_protected field ≡ false
    → Agree d e
    → Agree (put field v d) e
put-Agree field v d e h a k p = get-put field k v d ∙ ground (arith, a k p, eq_iff field k)

protected_free : (k : String) → is_protected k ≡ true → is_free k ≡ true
protected_free k p = elim (Bool-cases (str_eq "history" k)) [
  | inl e ↦ at "history" refl e
  | inr a ↦ elim (Bool-cases (str_eq "transitions" k)) [
    | inl e ↦ at "transitions" refl e
    | inr b ↦ elim (Bool-cases (str_eq "status" k)) [
      | inl e ↦ at "status" refl e
      | inr c ↦ elim (Bool-cases (str_eq "currentStep" k)) [
        | inl e ↦ at "currentStep" refl e
        | inr d ↦ ground arith
      ]
    ]
  ]
]
  where
    at : (j : String) → is_free j ≡ true → str_eq j k ≡ true → is_free k ≡ true
    at j free e = subst (λ x. is_free x ≡ true) ((eq_iff j k).0 e) free

base-Agree : (env : Env) (f : Folder) → Agree (base env f) (read_ctx f)
base-Agree env f k p = get-fill_required env f (read_ctx f) k (protected_free k p)

-- The guard leaves a history alone that is the one on disk, and the legacy log always.
history-guard_with :
    (h : Json) (ctx : Dict) → get "history" ctx ≡ h → get "history" (guard_with h h ctx) ≡ h
history-guard_with (arr xs) ctx e =
    get-put_self "history" _ ctx
    ∙ ap (λ l. arr (of_list l)) (splice_self (to_list xs))
    ∙ ap arr (of_list-to_list xs)
history-guard_with null ctx e = e
history-guard_with (bool _) ctx e = e
history-guard_with (num _) ctx e = e
history-guard_with (str _) ctx e = e
history-guard_with (obj _) ctx e = e

transitions-guarded :
    (disk : Json) (outgoing : Items) (ctx : Dict)
    → get "transitions" (guarded disk outgoing ctx) ≡ get "transitions" ctx
transitions-guarded null outgoing ctx = refl
transitions-guarded (arr xs) outgoing ctx = get-put "history" "transitions" _ ctx
transitions-guarded (bool b) outgoing ctx = get-put "historyQuarantined" "transitions" (bool b) ctx
transitions-guarded (num b) outgoing ctx = get-put "historyQuarantined" "transitions" (num b) ctx
transitions-guarded (str b) outgoing ctx = get-put "historyQuarantined" "transitions" (str b) ctx
transitions-guarded (obj b) outgoing ctx = get-put "historyQuarantined" "transitions" (obj b) ctx

transitions-guard_with :
    (disk out : Json) (ctx : Dict)
    → get "transitions" (guard_with disk out ctx) ≡ get "transitions" ctx
transitions-guard_with disk (arr xs) ctx = transitions-guarded disk xs ctx
transitions-guard_with disk _ ctx = refl

module _ (f : Folder) (ctx : Dict) (a : Agree ctx (read_ctx f)) where
  history_kept : get "history" (read_ctx (atomic_write f ctx)) ≡ get "history" (read_ctx f)
  unfolding atomic_write guard_append_only
  history_kept =
      rw (history_on_disk-loaded f.context, a "history" refl)
        (history-guard_with (get "history" (read_ctx f)) ctx (a "history" refl))

  transitions_kept :
      get "transitions" (read_ctx (atomic_write f ctx)) ≡ get "transitions" (read_ctx f)
  unfolding atomic_write guard_append_only
  transitions_kept =
      transitions-guard_with (history_on_disk f.context) (get "history" ctx) ctx
      ∙ a "transitions" refl

  pub atomic_write-SameLifecycle : SameLifecycle f (atomic_write f ctx)
  unfolding canonical_log
  atomic_write-SameLifecycle = record {
    log = ap₂ log_or history_kept transitions_kept;
    status = get-atomic_write f ctx "status" refl ∙ a "status" refl;
    step = get-atomic_write f ctx "currentStep" refl ∙ a "currentStep" refl;
  }

pub save-SameLifecycle :
    (env : Env) (f : Folder) (field : String) (v : Json)
    → is_protected field ≡ false
    → SameLifecycle f (left_by (save env f field v))
save-SameLifecycle env f field v h =
    atomic_write-SameLifecycle f _
      (put-Agree field v (base env f) (read_ctx f) h (base-Agree env f))

module _ (coerce : String → Json) where
  set_key-Agree : (key raw : String) (d e : Dict) → Agree d e → Agree (set_key coerce key raw d) e
  set_key-Agree key raw d e a = elim (Bool-cases (str_eq key "")) [
    | inl nameless ↦ rw nameless a
    | inr named ↦ rw named (elim (Bool-cases (is_protected key)) [
      | inl refused_key ↦ rw refused_key a
      | inr open_key ↦ rw open_key (put-Agree key _ d e open_key a)
    ])
  ]

  set_split-Agree :
      (pair : Option (String × String)) (d e : Dict) → Agree d e → Agree (set_split coerce pair d) e
  set_split-Agree none d e a = a
  set_split-Agree (some (key, raw)) d e a = set_key-Agree (strip key) raw d e a

  set_pairs-Agree :
      (pairs : List String) (d e : Dict) → Agree d e → Agree (set_pairs coerce pairs d) e
  unfolding set_pairs
  set_pairs-Agree [] d e a = a
  set_pairs-Agree (pair ∷ pairs) d e a =
      set_pairs-Agree pairs _ e (set_split-Agree (split_pair pair) d e a)

  -- `--set` changes neither the status, nor the current step, nor the log, whatever pairs it is
  -- given.
  pub set_fields-SameLifecycle :
      (env : Env) (f : Folder) (pairs : List String)
      → SameLifecycle f (left_by (set_fields env coerce f pairs))
  unfolding set_fields
  set_fields-SameLifecycle env f pairs =
      atomic_write-SameLifecycle f _ (set_pairs-Agree pairs _ (read_ctx f) (base-Agree env f))
