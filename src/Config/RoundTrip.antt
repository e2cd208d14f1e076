-- ===== src/Config/RoundTrip.antt =====
-- What `_yaml_flow_list` writes, `_parse_flow` reads.
use text.Mathlib.TextLemmas.{nil-append, cons-append}
use saga_forge.Base.{ℕ, suc, true, false, List, [], ◌∷◌, String, ◌≡◌, refl, sym, ap, ◌∙◌, str_eq}
use saga_forge.Text.{is_space, cat, strip, rstrip, join_with}
use saga_forge.Text.Prefixes.{str_eq-cons-nil}
use saga_forge.Config.Values.{Value, str, seq, Values, nil, cons, Parsed, ok, ◌>>=◌}
use saga_forge.Config.Flow.{
  drop_blank, split_flow, stripped_scalar, scalar, parse_items, parse_stripped, parse_flow, quoted,
  quoted_all, yaml_flow_list,
}
use saga_forge.Config.Ends.{
  IsSolid, cons-IsSolid, cat-IsSolid, strip-IsSolid, strip-space, ends_with-between,
  all_but_end-cat,
}
use saga_forge.Config.FlowLists.{all_plain, open_quote, cat-quote, spaced, pieces_from-join}

quote-IsSolid : IsSolid "\""
unfolding rstrip is_space
quote-IsSolid = record { kept = refl; nonempty = refl }

quoted-IsSolid : (s : String) → IsSolid (quoted s)
quoted-IsSolid s = cat-IsSolid "\"" (cat s "\"") (cat-IsSolid s "\"" quote-IsSolid)

not_space : is_space "\"" ≡ false
unfolding is_space
not_space = refl

-- A text that begins with a quote and ends with something that stays
strip-open : (t w : String) → t ≡ open_quote w → IsSolid t → strip t ≡ t
strip-open t w e h = rw e (strip-IsSolid "\"" w not_space (rw e at h))

strip-quoted : (s : String) → strip (quoted s) ≡ quoted s
strip-quoted s = strip-open (quoted s) (cat s "\"") (cat-quote (cat s "\"")) (quoted-IsSolid s)

quoted-nonempty : (s : String) → str_eq (quoted s) "" ≡ false
quoted-nonempty s = (quoted-IsSolid s).nonempty

stripped_scalar-open : (s : String) → stripped_scalar (open_quote (cat s "\"")) ≡ ok (str s)
stripped_scalar-open s =
    rw (str_eq-cons-nil "\"" (cat s "\""), ends_with-between "\"" "\"" s, all_but_end-cat "\"" s)
      refl

scalar-quoted : (s : String) → scalar (quoted s) ≡ ok (str s)
unfolding scalar
scalar-quoted s =
    ap stripped_scalar (strip-quoted s ∙ cat-quote (cat s "\"")) ∙ stripped_scalar-open s

parse_stripped-quoted :
    (parse : String → Parsed Value) (s : String) → parse_stripped parse (quoted s) ≡ ok (str s)
parse_stripped-quoted parse s =
    ap (parse_stripped parse) (cat-quote (cat s "\""))
    ∙ (ap scalar (sym (cat-quote (cat s "\""))) ∙ scalar-quoted s)

parse_flow-quoted :
    (fuel : ℕ) (s piece : String)
    → strip piece ≡ quoted s
    → parse_flow (suc fuel) piece ≡ ok (str s)
unfolding parse_flow
parse_flow-quoted fuel s piece e =
    ap (parse_stripped (parse_flow fuel)) e ∙ parse_stripped-quoted (parse_flow fuel) s

abbrev pub texts : List String → Values
texts [] = nil
texts (s ∷ ss) = cons (str s) (texts ss)

parse_items-spaced :
    (fuel : ℕ) (ss : List String) → parse_items (parse_flow (suc fuel)) (spaced ss) ≡ ok (texts ss)
parse_items-spaced fuel [] = refl
parse_items-spaced fuel (s ∷ ss) =
    rw
      (
        parse_flow-quoted fuel s (String.◌∷◌ " " (quoted s))
            (strip-space (quoted s) ∙ strip-quoted s),
        parse_items-spaced fuel ss,
      )
      refl

-- The last piece is not blank.
drop_blank-spaced :
    (p : String) (ss : List String)
    → str_eq (strip p) "" ≡ false
    → drop_blank (p ∷ spaced ss) ≡ p ∷ spaced ss
drop_blank-spaced p [] h = rw h refl
drop_blank-spaced p (s ∷ ss) h = ap (◌∷◌ p) (
    drop_blank-spaced (String.◌∷◌ " " (quoted s)) ss
      (ap (λ t. str_eq t "") (strip-space (quoted s) ∙ strip-quoted s) ∙ quoted-nonempty s))

join-IsSolid : (s : String) (ss : List String) → IsSolid (join_with ", " (quoted_all (s ∷ ss)))
join-IsSolid s [] = quoted-IsSolid s
join-IsSolid s (t ∷ ts) =
    cat-IsSolid (quoted s) (cat ", " (join_with ", " (quoted_all (t ∷ ts))))
      (cat-IsSolid ", " (join_with ", " (quoted_all (t ∷ ts))) (join-IsSolid t ts))

-- The quote at the head
join-open :
    (s : String) (ss : List String)
    → (w : String) × (join_with ", " (quoted_all (s ∷ ss)) ≡ open_quote w)
join-open s [] = (cat s "\"", cat-quote (cat s "\""))
join-open s (t ∷ ts) =
    let later = cat ", " (join_with ", " (quoted_all (t ∷ ts))) in
    (
      cat (cat s "\"") later,
      ap (λ u. cat u later) (cat-quote (cat s "\"")) ∙ cons-append "\"" (cat s "\"") later,
    )

strip-join :
    (s : String) (ss : List String)
    → strip (join_with ", " (quoted_all (s ∷ ss))) ≡ join_with ", " (quoted_all (s ∷ ss))
strip-join s ss = let (w, e) = join-open s ss in strip-open _ w e (join-IsSolid s ss)

split_flow-join :
    (s : String) (ss : List String)
    → all_plain (s ∷ ss) ≡ true
    → split_flow (join_with ", " (quoted_all (s ∷ ss))) ≡ quoted s ∷ spaced ss
unfolding split_flow
split_flow-join s ss h =
    ap drop_blank (pieces_from-join s ss h)
    ∙ drop_blank-spaced (quoted s) ss (ap (λ t. str_eq t "") (strip-quoted s) ∙ quoted-nonempty s)

bracket-IsSolid : IsSolid "]"
unfolding rstrip is_space
bracket-IsSolid = record { kept = refl; nonempty = refl }

bracket_not_space : is_space "[" ≡ false
unfolding is_space
bracket_not_space = refl

abbrev bracketed : String → String
bracketed j = String.◌∷◌ "[" (cat j "]")

cat-bracket : (j : String) → cat "[" (cat j "]") ≡ bracketed j
cat-bracket j = cons-append "[" "" (cat j "]") ∙ ap (String.◌∷◌ "[") (nil-append (cat j "]"))

strip-bracketed : (j : String) → strip (bracketed j) ≡ bracketed j
strip-bracketed j =
    strip-IsSolid "[" (cat j "]") bracket_not_space
      (cons-IsSolid "[" (cat j "]") (cat-IsSolid j "]" bracket-IsSolid))

parse_stripped-bracketed :
    (parse : String → Parsed Value) (j : String)
    → parse_stripped parse (bracketed j)
      ≡ (do vs ← parse_items parse (split_flow (strip j)); ok (seq vs))
parse_stripped-bracketed parse j = rw (ends_with-between "[" "]" j, all_but_end-cat "]" j) refl

parse_flow-empty : (fuel : ℕ) → parse_flow (suc fuel) "[]" ≡ ok (seq nil)
unfolding parse_flow is_space
parse_flow-empty fuel = refl

-- A list of texts without double quotes is read back as it was written; two rounds of fuel suffice.
pub parse_flow-yaml_flow_list :
    (fuel : ℕ) (items : List String)
    → all_plain items ≡ true
    → parse_flow (suc (suc fuel)) (yaml_flow_list items) ≡ ok (seq (texts items))
unfolding yaml_flow_list parse_flow
parse_flow-yaml_flow_list fuel [] h = parse_flow-empty (suc fuel)
parse_flow-yaml_flow_list fuel (s ∷ ss) h =
    let j = join_with ", " (quoted_all (s ∷ ss)) in
    ap (λ t. parse_stripped (parse_flow (suc fuel)) (strip t)) (cat-bracket j)
    ∙ ap (parse_stripped (parse_flow (suc fuel))) (strip-bracketed j)
    ∙ parse_stripped-bracketed (parse_flow (suc fuel)) j
    ∙ rw
        (
          strip-join s ss,
          split_flow-join s ss h,
          parse_flow-quoted fuel s (quoted s) (strip-quoted s),
          parse_items-spaced fuel ss,
        )
        refl
