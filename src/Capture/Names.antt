-- ===== src/Capture/Names.antt =====
-- The lists of names and texts that `set_living_specs_loaded`, `set_living_specs_synced` and
-- `append_string_list` extend.
use saga_forge.Base.{
  Bool, true, false, not, ◌&&◌, ◌||◌, List, [], ◌∷◌, ◌++◌, String, ◌≡◌, refl, sym, ap, ◌∙◌, inl,
  inr, Bool-cases, if◌then◌else◌, any, any-append, elem, map, str_eq, eq_iff, eq_refl,
}
use mathlib.Core.List.{append-nil, append_assoc}
use saga_forge.Json.{Json, str, arr, of_list, to_list-of_list, json_eq, list_or_empty}
use saga_forge.Capture.Merge.{merge_onto, merged_names}

-- No value of the list is there before it.
abbrev fresh : List Json → List Json → Bool
fresh seen [] = true
fresh seen (v ∷ vs) = not (any (json_eq v) seen) && fresh (seen ++ v ∷ []) vs

merge_onto-fresh : (seen vs : List Json) → fresh seen vs ≡ true → merge_onto seen vs ≡ seen ++ vs
unfolding merge_onto
merge_onto-fresh seen [] h = sym (append-nil seen)
merge_onto-fresh seen (v ∷ vs) h = elim (Bool-cases (any (json_eq v) seen)) [
  | inl old ↦ let clash : false ≡ true = rw old at h in cc
  | inr new ↦
      rw new (merge_onto-fresh (seen ++ v ∷ []) vs (rw new at h) ∙ append_assoc seen (v ∷ []) vs)
]

fresh-snoc :
    (seen vs : List Json) (v : Json)
    → fresh seen vs ≡ true
    → any (json_eq v) (seen ++ vs) ≡ false
    → fresh seen (vs ++ v ∷ []) ≡ true
fresh-snoc seen [] v h new =
    let there : any (json_eq v) seen ≡ false = ap (any (json_eq v)) (sym (append-nil seen)) ∙ new in
    rw there refl
fresh-snoc seen (w ∷ vs) v h new = elim (Bool-cases (any (json_eq w) seen)) [
  | inl old ↦ let clash : false ≡ true = rw old at h in cc
  | inr first ↦ rw first (
      fresh-snoc (seen ++ w ∷ []) vs v (rw first at h)
        (ap (any (json_eq v)) (append_assoc seen (w ∷ []) vs) ∙ new))
]

fresh-merge_onto :
    (merged vs : List Json) → fresh [] merged ≡ true → fresh [] (merge_onto merged vs) ≡ true
unfolding merge_onto
fresh-merge_onto merged [] h = h
fresh-merge_onto merged (v ∷ vs) h = elim (Bool-cases (any (json_eq v) merged)) [
  | inl old ↦ rw old (fresh-merge_onto merged vs h)
  | inr new ↦ rw new (fresh-merge_onto (merged ++ v ∷ []) vs (fresh-snoc [] merged v h new))
]

merge_onto-append :
    (merged vs ws : List Json) → merge_onto merged (vs ++ ws) ≡ merge_onto (merge_onto merged vs) ws
unfolding merge_onto
merge_onto-append merged [] ws = refl
merge_onto-append merged (v ∷ vs) ws =
    merge_onto-append (if any (json_eq v) merged then merged else merged ++ v ∷ []) vs ws

any-merge_onto :
    (test : Json → Bool) (merged vs : List Json)
    → any test merged ≡ true
    → any test (merge_onto merged vs) ≡ true
unfolding merge_onto
any-merge_onto test merged [] h = h
any-merge_onto test merged (v ∷ vs) h = elim (Bool-cases (any (json_eq v) merged)) [
  | inl old ↦ rw old (any-merge_onto test merged vs h)
  | inr new ↦
      rw new
        (any-merge_onto test (merged ++ v ∷ []) vs (any-append test merged (v ∷ []) ∙ rw h refl))
]

either : (b : Bool) → (b || true) ≡ true
either true = refl
either false = refl

json_eq_str : (s : String) → json_eq (str s) (str s) ≡ true
unfolding json_eq
json_eq_str s = eq_refl s

any-snoc :
    (v : Json) (merged : List Json) → json_eq v v ≡ true → any (json_eq v) (merged ++ v ∷ []) ≡ true
any-snoc v merged h =
    any-append (json_eq v) merged (v ∷ []) ∙ rw h (either (any (json_eq v) merged))

recorded :
    (merged : List Json) (names : List String) (n : String)
    → elem n names ≡ true
    → any (json_eq (str n)) (merge_onto merged (map str names)) ≡ true
unfolding merge_onto
recorded merged [] n h = cc
recorded merged (m ∷ names) n h = elim (Bool-cases (str_eq m n)) [
  | inr later ↦
      recorded (if any (json_eq (str m)) merged then merged else merged ++ str m ∷ []) names n
        (rw later at h)
  | inl here ↦
      let same : m ≡ n = (eq_iff m n).0 here in
      rw same (elim (Bool-cases (any (json_eq (str n)) merged)) [
        | inl old ↦ rw old (any-merge_onto (json_eq (str n)) merged (map str names) old)
        | inr new ↦ rw new (
            any-merge_onto (json_eq (str n)) (merged ++ str n ∷ []) (map str names)
              (any-snoc (str n) merged (json_eq_str n)))
      ])
]

merge_onto-known :
    (merged : List Json) (names : List String)
    → ((n : String) → elem n names ≡ true → any (json_eq (str n)) merged ≡ true)
    → merge_onto merged (map str names) ≡ merged
unfolding merge_onto
merge_onto-known merged [] h = refl
merge_onto-known merged (m ∷ names) h =
    let first : any (json_eq (str m)) merged ≡ true = h m (rw eq_refl refl) in
    ap (λ b. merge_onto (if b then merged else merged ++ str m ∷ []) (map str names)) first
    ∙ merge_onto-known merged names (λ n there. h n (rw there (either (str_eq m n))))

module _ (prior : Json) (names : List String) where
  whole :
      merged_names prior names ≡ merge_onto (merge_onto [] (list_or_empty prior)) (map str names)
  unfolding merged_names
  whole = merge_onto-append [] (list_or_empty prior) (map str names)

  merged-fresh : fresh [] (merged_names prior names) ≡ true
  merged-fresh = rw whole (
      fresh-merge_onto (merge_onto [] (list_or_empty prior)) (map str names)
        (fresh-merge_onto [] (list_or_empty prior) refl))

  merged_names-recorded :
      (n : String) → elem n names ≡ true → any (json_eq (str n)) (merged_names prior names) ≡ true
  merged_names-recorded n there =
      rw whole (recorded (merge_onto [] (list_or_empty prior)) names n there)

module _ (prior : Json) (names : List String) where
  merged_names-again :
      merged_names (arr (of_list (merged_names prior names))) names ≡ merged_names prior names
  merged_names-again =
      let merged = merged_names prior names in
      whole (arr (of_list merged)) names
      ∙ ap (λ vs. merge_onto (merge_onto [] vs) (map str names)) (to_list-of_list merged)
      ∙ ap (λ vs. merge_onto vs (map str names))
          (merge_onto-fresh [] merged (merged-fresh prior names))
      ∙ merge_onto-known merged names (merged_names-recorded prior names)

  -- Whatever stood in the field before, each name is recorded, and to record the same names again
  -- changes nothing.
  pub merged_names-records :
      (n : String)
      → elem n names ≡ true
      → (any (json_eq (str n)) (merged_names prior names) ≡ true)
        × (merged_names (arr (of_list (merged_names prior names))) names ≡ merged_names prior names)
  merged_names-records n there = (merged_names-recorded prior names n there, merged_names-again)
