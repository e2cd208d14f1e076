-- ===== src/Deltas/Resolving.antt =====
-- `_resolve_rename` over the map that `_rename_map` gives.
use saga_forge.Base.{
  ℕ, zero, suc, ◌≤◌, Bool, true, false, List, [], ◌∷◌, ◌++◌, String, none, some, ◌≡◌, refl, sym,
  inl, inr, ◌∙◌, arith, Bool-cases, Option-cases, str_eq, eq_iff, eq_refl, elem, length,
  if◌then◌else◌, ◌||◌,
}
use saga_forge.Deltas.Renames.{
  Renames, find, ends, loops, walk, walk_from, looped, cyclic_from, cyclic, onward, without,
  first_wins, rename_map, follow, resolve_rename,
}
use saga_forge.Deltas.Chains.{elem-append, walk_from-Ended}

-- What the filter leaves out and keeps.
find-without :
    (bad : List String) (h : String) (m : Renames)
    → find h (without bad m) ≡ (if elem h bad then none else find h m)
find-without bad h [] = ground arith
find-without bad h ((old, new) ∷ m) = elim (Bool-cases (str_eq old h)) [
  | inl here ↦
      let is_h : old ≡ h = (eq_iff old h).0 here in
      elim (Bool-cases (elem h bad)) [
        | inl dropped ↦ rw (is_h, dropped) (find-without bad h m ∙ rw dropped)
        | inr kept ↦ rw (is_h, kept, eq_refl)
      ]
  | inr there ↦ elim (Bool-cases (elem old bad)) [
    | inl dropped ↦ rw (dropped, there) (find-without bad h m)
    | inr kept ↦ rw (kept, there) (find-without bad h m)
  ]
]

-- A loop of the map that is left is a loop of the whole map.
walk-without :
    (bad : List String) (m : Renames) (fuel more : ℕ) (chain : List String) (current : String)
    (c : List String)
    → fuel ≤ more
    → walk fuel (without bad m) chain current ≡ loops c
    → walk more m chain current ≡ loops c
unfolding walk
walk-without bad m zero more chain current c h e = cc
walk-without bad m (suc fuel) zero chain current c h e =
    let absurd : false ≡ true = ground arith in cc
walk-without bad m (suc fuel) (suc more) chain current c h e =
    elim (Bool-cases (elem current bad)) [
      | inl dropped ↦
          let out : walk (suc fuel) (without bad m) chain current ≡ ends =
            rw (walk, find-without bad current m, dropped) in
          cc
      | inr kept ↦ elim (Option-cases (find current m)) [
        | inl out ↦
            let left : walk (suc fuel) (without bad m) chain current ≡ ends =
              rw (walk, find-without bad current m, kept, out) in
            cc
        | inr (to, step) ↦
            let e' : onward (some to) chain
                  (λ next. walk fuel (without bad m) (chain ++ next ∷ []) next)
                ≡ loops c =
              rw (find-without bad current m, kept, step) at e in
            rw (walk, step)
              (elim (Bool-cases (elem to chain)) [
                | inl met ↦ rw met (rw met at e')
                | inr new ↦ rw new (
                    walk-without bad m fuel more (chain ++ to ∷ []) to c (omega arith)
                      (rw new at e'))
              ])
      ]
    ]

length-without : (bad : List String) (m : Renames) → length (without bad m) ≤ length m
length-without bad [] = omega arith
length-without bad ((old, new) ∷ m) = elim (Bool-cases (elem old bad)) [
  | inl dropped ↦ rw dropped (omega (arith, length-without bad m))
  | inr kept ↦ rw kept (omega (arith, length-without bad m))
]

-- The chain that a loop is found on holds all that was walked.
elem-walk :
    (m : Renames) (fuel : ℕ) (chain : List String) (current : String) (c : List String) (x : String)
    → walk fuel m chain current ≡ loops c
    → elem x chain ≡ true
    → elem x c ≡ true
unfolding walk
elem-walk m zero chain current c x e h = cc
elem-walk m (suc fuel) chain current c x e h = elim (Option-cases (find current m)) [
  | inl out ↦ let left : ends ≡ loops c = rw out at e in cc
  | inr (to, step) ↦
      let e' : onward (some to) chain (λ next. walk fuel m (chain ++ next ∷ []) next) ≡ loops c =
        rw step at e in
      elim (Bool-cases (elem to chain)) [
        | inl met ↦ let same : loops chain ≡ loops c = rw met at e' in cc
        | inr new ↦
            elem-walk m fuel (chain ++ to ∷ []) to c x (rw new at e')
              (elem-append x chain (to ∷ []) ∙ rw h)
      ]
]

either_true : (b : Bool) → (b || true) ≡ true
either_true true = refl
either_true false = refl

elem-cyclic_from :
    (m rest : Renames) (start to : String) (c : List String) (x : String)
    → find start rest ≡ some to
    → walk_from m start ≡ loops c
    → elem x c ≡ true
    → elem x (cyclic_from m rest) ≡ true
unfolding cyclic_from
elem-cyclic_from m [] start to c x h e i = cc
elem-cyclic_from m ((old, new) ∷ rest) start to c x h e i = elim (Bool-cases (str_eq old start)) [
  | inl here ↦
      let is_start : old ≡ start = (eq_iff old start).0 here in
      elem-append x (looped (walk_from m old)) (cyclic_from m rest) ∙ rw (is_start, e) (rw i)
  | inr there ↦
      elem-append x (looped (walk_from m old)) (cyclic_from m rest)
      ∙ rw (elem-cyclic_from m rest start to c x (rw there at h) e i)
          (either_true (elem x (looped (walk_from m old))))
]

follow_stays : (n : ℕ) (m : Renames) (h : String) → find h m ≡ none → follow n m h ≡ h
unfolding follow
follow_stays zero m h out = refl
follow_stays (suc n) m h out = rw out (follow_stays n m h out)

follow_out :
    (fuel : ℕ) (m : Renames) (chain : List String) (current : String)
    → walk fuel m chain current ≡ ends
    → find (follow fuel m current) m ≡ none
unfolding walk follow
follow_out zero m chain current e = cc
follow_out (suc fuel) m chain current e = elim (Option-cases (find current m)) [
  | inl out ↦ rw (out, follow_stays fuel m current out) out
  | inr (to, step) ↦
      let e' : onward (some to) chain (λ next. walk fuel m (chain ++ next ∷ []) next) ≡ ends =
        rw step at e in
      rw step (elim (Bool-cases (elem to chain)) [
        | inl met ↦ let never : loops chain ≡ ends = rw met at e' in cc
        | inr new ↦ follow_out fuel m (chain ++ to ∷ []) to (rw new at e')
      ])
]

module _ (m : Renames) where
  -- A loop that is left would be a loop of the whole map, whose headings were left out.
  no_loop :
      (h to : String) (c : List String)
      → find h (without (cyclic m) m) ≡ some to
      → ¬ (walk_from (without (cyclic m) m) h ≡ loops c)
  no_loop h to c there e =
      let whole : walk_from m h ≡ loops c =
        walk-without (cyclic m) m (suc (length (without (cyclic m) m))) (suc (length m)) (h ∷ []) h
          c (omega (arith, length-without (cyclic m) m)) e in
      let on_it : elem h c ≡ true =
        elem-walk m (suc (length m)) (h ∷ []) h c h whole (rw eq_refl) in
      let sought : (if elem h (cyclic m) then none else find h m) ≡ some to =
        sym (find-without (cyclic m) h m) ∙ there in
      elim (Bool-cases (elem h (cyclic m))) [
        | inl dropped ↦ let nothing : none ≡ some to = rw dropped at sought in cc
        | inr kept ↦
            let listed : elem h (cyclic m) ≡ true =
              elem-cyclic_from m m h to c h (rw kept at sought) whole on_it in
            cc
      ]

  follow_final :
      (h : String) → find (resolve_rename h (without (cyclic m) m)) (without (cyclic m) m) ≡ none
  unfolding resolve_rename
  follow_final h =
      let left = without (cyclic m) m in
      elim (Option-cases (find h left)) [
        | inl out ↦ rw (follow_stays (suc (length left)) left h out) out
        | inr (to, there) ↦ elim (walk_from-Ended left h to there) [
          | inl done ↦ follow_out (suc (length left)) left (h ∷ []) h done
          | inr (c, e) ↦ elim (no_loop h to c there e) [ ]
        ]
      ]

-- Whatever renames a spec lists, cycles and repeated headings included, a heading resolves to one
-- that is renamed no further.
pub find-resolve_rename :
    (renames : List (String × String)) (h : String)
    → find (resolve_rename h (rename_map renames)) (rename_map renames) ≡ none
unfolding rename_map
find-resolve_rename renames h = follow_final (first_wins [] renames) h
