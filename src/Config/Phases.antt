-- ===== src/Config/Phases.antt =====
-- What `resolve_phases` lets through.
use saga_forge.Base.{
  Bool, true, false, not, ◌&&◌, List, [], ◌∷◌, String, ◌≡◌, refl, ap, str_eq, eq_iff, eq_refl,
  arith,
}
use saga_forge.Text.{strip}
use saga_forge.Config.Values.{
  Value, str, seq, map, Values, nil, cons, Fields, empty, field, get, to_list,
}
use saga_forge.Config.Hooks.{
  Outcome, ok, ◌>>=◌, Phase, phase_names, placed, repeats, phase_of, phases_from, phase_nodes,
  node_texts, resolve_phases,
}

abbrev is_nonempty : List String → Bool
is_nonempty [] = false
is_nonempty (_ ∷ _) = true

-- Each phase has a name and a node.
abbrev pub all_full : List Phase → Bool
all_full [] = true
all_full (p ∷ ps) = not (str_eq p.name "") && is_nonempty p.nodes && all_full ps

-- Each phase has a name and a node, no name is given twice, and no node stands twice.
abbrev pub IsSound : List Phase → Type 0
IsSound ps =
    (all_full ps ≡ true) × (repeats (phase_names ps) ≡ false) × (repeats (placed ps) ≡ false)

abbrev Full : Outcome (List Phase) → Type 0
Full (ok ps) = all_full ps ≡ true
Full _ = Unit {0}

abbrev FullPhase : Outcome Phase → Type 0
FullPhase (ok p) = (str_eq p.name "" ≡ false) × (is_nonempty p.nodes ≡ true)
FullPhase _ = Unit {0}

module _ (show : Value → String) where
  abbrev pub Sound : Outcome (List Phase) → Type 0
  Sound (ok ps) = IsSound ps
  Sound _ = Unit {0}

abbrev pub text_values : List String → Values
text_values [] = nil
text_values (s ∷ ss) = cons (str s) (text_values ss)

-- A phase as a configuration gives it
abbrev given_phase : Phase → Value
given_phase p = map (field "name" (str p.name) (field "nodes" (seq (text_values p.nodes)) empty))

abbrev given_phases : List Phase → Values
given_phases [] = nil
given_phases (p ∷ ps) = cons (given_phase p) (given_phases ps)

-- A configuration of one command with these phases
abbrev pub with_phases : String → List Phase → Fields
with_phases name ps =
    field "commands" (map (field name (map (field "phases" (seq (given_phases ps)) empty)) empty))
      empty

-- No name has spaces around it.
abbrev pub all_trimmed : List Phase → Bool
all_trimmed [] = true
all_trimmed (p ∷ ps) = str_eq (strip p.name) p.name && all_trimmed ps

module _ (show : Value → String) where
  node_texts-text_values : (ss : List String) → node_texts show (to_list (text_values ss)) ≡ ss
  node_texts-text_values [] = refl
  node_texts-text_values (s ∷ ss) = ap (◌∷◌ s) (node_texts-text_values ss)

  phase_nodes-text_values :
      (ss : List String) → is_nonempty ss ≡ true → phase_nodes show (seq (text_values ss)) ≡ ok ss
  phase_nodes-text_values [] h = cc
  phase_nodes-text_values (s ∷ ss) h = ap (λ ts. ok (s ∷ ts)) (node_texts-text_values ss)

  phase_of-given_phase :
      (p : Phase)
      → str_eq p.name "" ≡ false
      → str_eq (strip p.name) p.name ≡ true
      → is_nonempty p.nodes ≡ true
      → phase_of show (given_phase p) ≡ ok p
  unfolding get
  phase_of-given_phase p named trimmed nodes =
      rw
        (
          named,
          (eq_iff (strip p.name) p.name).0 trimmed,
          named,
          phase_nodes-text_values p.nodes nodes,
        )
        refl

  phases_from-given :
      (ps : List Phase)
      → all_full ps ≡ true
      → all_trimmed ps ≡ true
      → phases_from show (to_list (given_phases ps)) ≡ ok ps
  unfolding phases_from
  phases_from-given [] f t = refl
  phases_from-given (p ∷ ps) f t =
      rw
        (
          phase_of-given_phase p (ground arith) (ground arith) (ground arith),
          phases_from-given ps (ground arith) (ground arith),
        )
        refl

  -- Phases that have each a trimmed name and a node, with no name given twice and no node in two phases,
  -- are resolved as they are given.
  pub resolve_phases-with_phases :
      (name : String) (ps : List Phase)
      → all_trimmed ps ≡ true
      → IsSound ps
      → resolve_phases show (with_phases name ps) name ≡ ok ps
  unfolding resolve_phases get
  resolve_phases-with_phases name ps t (full, names, nodes) =
      rw (eq_refl name) (rw (phases_from-given ps full t) (rw (names, nodes) refl))
