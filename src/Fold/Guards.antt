-- ===== src/Fold/Guards.antt =====
-- What the loop of `fold_living_spec` may change on the disk, and what it records as synced.
use saga_forge.Base.{
  Bool, true, false, not, ◌&&◌, ◌||◌, List, [], ◌∷◌, ◌++◌, String, Option, some, ◌≡◌, refl, sym, ap,
  ◌∙◌, ◌⊎◌, subst, inl, inr, Bool-cases, Option-cases, str_eq, elem, any, length, ◌==◌, arith,
  eq_iff,
}
use text.Mathlib.TextPositions.{eq_refl}
use saga_forge.Deltas.{fences_are_balanced, has_deltas, Deltas, apply_deltas}
use saga_forge.Resolver.{Entry, requirement_slices}
use saga_forge.Validate.{Finding}
use saga_forge.Fold.{
  Disk, text_at, put_text, Host, Progress, is_ready, is_free, routed, text_before, is_written,
  write_if, write_after, fold_target, fold_targets, would_empty,
}

put_text-other :
    (p q t : String) (d : Disk) → str_eq q p ≡ false → text_at p (put_text q t d) ≡ text_at p d
unfolding text_at put_text
put_text-other p q t [] h = rw h refl
put_text-other p q t ((r, u) ∷ d) h = elim (Bool-cases (str_eq r q)) [
  | inl same ↦
      rw same (let other : str_eq r p ≡ false = rw ((eq_iff r q).0 same) h in rw other refl)
  | inr apart ↦ rw apart (elim (Bool-cases (str_eq r p)) [
    | inl here ↦ rw here refl
    | inr there ↦ rw there (put_text-other p q t d h)
  ])
]

put_text-same :
    (p q t : String) (d : Disk) → str_eq q p ≡ true → text_at p (put_text q t d) ≡ some t
unfolding text_at put_text
put_text-same p q t [] h = rw h refl
put_text-same p q t ((r, u) ∷ d) h = elim (Bool-cases (str_eq r q)) [
  | inl same ↦ rw same (let here : str_eq r p ≡ true = rw ((eq_iff r q).0 same) h in rw here refl)
  | inr apart ↦ rw apart (
      let there : str_eq r p ≡ false = rw ((eq_iff q p).0 h) at apart in
      rw there (put_text-same p q t d h))
]

-- What the guards of the write come to
kept_of :
    (same balanced bare retire can_write : Bool)
    → (not (not same && (balanced && bare) && not retire) && not same && can_write) ≡ true
    → (retire || not balanced || not bare) ≡ true
kept_of same balanced bare true can_write h = refl
kept_of same false bare false can_write h = refl
kept_of same true false false can_write h = refl
kept_of true true true false can_write h = cc
kept_of false true true false can_write h = cc

-- What a target is ready by
ready_parts : (a b c : Bool) → (a && b && c) ≡ true → (b ≡ true) × (c ≡ true)
ready_parts true true true h = (refl, refl)
ready_parts true true false h = cc
ready_parts true false c h = cc
ready_parts false b c h = cc

or_true : (b : Bool) → (b || true) ≡ true
or_true true = refl
or_true false = refl

elem-append : (n : String) (xs ys : List String) → elem n (xs ++ ys) ≡ (elem n xs || elem n ys)
elem-append n [] ys = refl
elem-append n (x ∷ xs) ys = ground (arith, elem-append n xs ys)

module _ (host : Host) (blocked : String → List Finding) (d : Deltas)
    (default_name : Option String) where
  -- The target may leave this text at the path, and it is recorded.
  abbrev pub may_leave : String → String → List String → Entry → Bool
  may_leave path text synced e =
      str_eq e.spec path
      && has_deltas (routed d default_name e)
      && is_free (blocked e.name)
      && (e.retire || not (fences_are_balanced text) || not (length (requirement_slices text) == 0))
      && elem e.name synced

  -- The text at the path is one that a target may leave.
  abbrev pub IsLeft : List Entry → String → List String → Option String → Type 0
  IsLeft es path synced o =
      (text : String) × (o ≡ some text) × (any (may_leave path text synced) es ≡ true)

  synced-write_if :
      (b : Bool) (e : Entry) (after n : String) (p : Progress)
      → elem n p.synced ≡ true
      → elem n (write_if b e after p).synced ≡ true
  synced-write_if true e after n p h = elem-append n p.synced (e.name ∷ []) ∙ ground (arith, h)
  synced-write_if false e after n p h = h

  synced-fold_target :
      (e : Entry) (n : String) (p : Progress)
      → elem n p.synced ≡ true
      → elem n (fold_target host blocked d default_name e p).synced ≡ true
  synced-fold_target e n p h = elim (Bool-cases (is_ready blocked d default_name e)) [
    | inl ready ↦ rw ready (elim (Option-cases (text_before host e p.disk)) [
      | inl unread ↦ rw unread h
      | inr (before, read) ↦ rw read (synced-write_if _ e _ n p h)
    ])
    | inr idle ↦ rw idle h
  ]

  synced-fold_targets :
      (es : List Entry) (n : String) (p : Progress)
      → elem n p.synced ≡ true
      → elem n (fold_targets host blocked d default_name es p).synced ≡ true
  unfolding fold_targets
  synced-fold_targets [] n p h = h
  synced-fold_targets (e ∷ es) n p h =
      synced-fold_targets es n (fold_target host blocked d default_name e p)
        (synced-fold_target e n p h)

  -- What one target does to the text at a path
  abbrev Step : Entry → String → Progress → Progress → Type 0
  Step e path p q =
      (text_at path q.disk ≡ text_at path p.disk)
      ⊎ ((text : String) × (text_at path q.disk ≡ some text)
          × (may_leave path text q.synced e ≡ true))

  own-name : (e : Entry) (p : Progress) → elem e.name (p.synced ++ e.name ∷ []) ≡ true
  own-name e p = elem-append e.name p.synced (e.name ∷ []) ∙ ground (arith, eq_refl e.name)

  may_leave-own :
      (e : Entry) (before after path : String) (p : Progress)
      → is_ready blocked d default_name e ≡ true
      → is_written host e before after ≡ true
      → str_eq e.spec path ≡ true
      → may_leave path after (p.synced ++ e.name ∷ []) e ≡ true
  unfolding would_empty
  may_leave-own e before after path p ready written here =
      let kept : (e.retire
            || not (fences_are_balanced after)
            || not (length (requirement_slices after) == 0))
          ≡ true =
        kept_of (str_eq after before) (fences_are_balanced after)
          (length (requirement_slices after) == 0) e.retire (host.can_write e.spec) written in
      let (deltas, free) =
        ready_parts (not (str_eq e.spec "")) (has_deltas (routed d default_name e))
          (is_free (blocked e.name)) ready in
      rw (here, deltas, free, kept, own-name e p) refl

  Step-write_after :
      (e : Entry) (before path : String) (p : Progress)
      → is_ready blocked d default_name e ≡ true
      → Step e path p (write_after host e (routed d default_name e) (some before) p)
  Step-write_after e before path p ready =
      let after = (apply_deltas before (routed d default_name e)).content in
      elim (Bool-cases (is_written host e before after)) [
        | inl written ↦ rw written (elim (Bool-cases (str_eq e.spec path)) [
          | inl here ↦ inr (
            after,
            put_text-same path e.spec after p.disk here,
            may_leave-own e before after path p ready written here,
          )
          | inr there ↦ inl (put_text-other path e.spec after p.disk there)
        ])
        | inr left ↦ rw left (inl refl)
      ]

  fold_target-writes :
      (e : Entry) (before : String) (p : Progress)
      → is_ready blocked d default_name e ≡ true
      → text_before host e p.disk ≡ some before
      → fold_target host blocked d default_name e p
        ≡ write_after host e (routed d default_name e) (some before) p
  fold_target-writes e before p ready read = rw (ready, read) refl

  Step-fold_target :
      (e : Entry) (path : String) (p : Progress)
      → Step e path p (fold_target host blocked d default_name e p)
  Step-fold_target e path p = elim (Bool-cases (is_ready blocked d default_name e)) [
    | inl ready ↦ elim (Option-cases (text_before host e p.disk)) [
      | inl unread ↦ rw (ready, unread) (inl refl)
      | inr (before, read) ↦
          subst (Step e path p) (sym (fold_target-writes e before p ready read))
            (Step-write_after e before path p ready)
    ]
    | inr idle ↦ rw idle (inl refl)
  ]

  may_leave-grows :
      (e : Entry) (path text : String) (xs ys : List String)
      → (elem e.name xs ≡ true → elem e.name ys ≡ true)
      → may_leave path text xs e ≡ true
      → may_leave path text ys e ≡ true
  may_leave-grows e path text xs ys grows h = elim (Bool-cases (elem e.name xs)) [
    | inl recorded ↦ ground (arith, h, grows recorded)
    | inr missing ↦ ground (arith, h, missing)
  ]

  -- Each file keeps its text, or has one that a target without errors may leave: the target has
  -- deltas, it is recorded as synced, and a requirement is in the text, or a fence is open, unless
  -- the target is to be retired.
  pub fold_targets-IsLeft :
      (es : List Entry) (path : String) (p : Progress)
      → let q = fold_targets host blocked d default_name es p in
        (text_at path q.disk ≡ text_at path p.disk) ⊎ IsLeft es path q.synced (text_at path q.disk)
  unfolding fold_targets
  fold_targets-IsLeft [] path p = inl refl
  fold_targets-IsLeft (e ∷ es) path p =
      let p1 = fold_target host blocked d default_name e p in
      let q = fold_targets host blocked d default_name es p1 in
      elim (fold_targets-IsLeft es path p1) [
        | inl same ↦ elim (Step-fold_target e path p) [
          | inl kept ↦ inl (same ∙ kept)
          | inr (text, is_text, left) ↦ inr (
            text,
            same ∙ is_text,
            ap (λ b. b || any (may_leave path text q.synced) es)
                (may_leave-grows e path text p1.synced q.synced (synced-fold_targets es e.name p1)
                  left),
          )
        ]
        | inr (text, is_text, left) ↦ inr (
          text,
          is_text,
          ap (λ b. may_leave path text q.synced e || b) left
              ∙ or_true (may_leave path text q.synced e),
        )
      ]
