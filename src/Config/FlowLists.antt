-- ===== src/Config/FlowLists.antt =====
-- A list of texts that `_yaml_flow_list` writes is read back by `_parse_flow`.
use text.Mathlib.TextLemmas.{nil-append, append-nil, cons-append, append_assoc}
use saga_forge.Base.{
  Bool, true, not, ◌&&◌, List, [], ◌∷◌, Char, String, some, ◌≡◌, refl, sym, ap, ◌∙◌, inl, inr,
  Bool-cases, arith,
}
use saga_forge.Text.{is, cat, join_with}
use saga_forge.Config.Flow.{Scan, start, push_char, pieces_from, quoted, quoted_all}

-- No double quote stands in the text.
unfoldable pub is_plain : String → Bool
is_plain String.[] = true
is_plain (String.◌∷◌ c s) = not (is c 34) && is_plain s

abbrev pub all_plain : List String → Bool
all_plain [] = true
all_plain (s ∷ ss) = is_plain s && all_plain ss

-- A text in front of the first piece
abbrev pub onto_first : String → List String → List String
onto_first s [] = s ∷ []
onto_first s (p ∷ ps) = cat s p ∷ ps

push_char-onto_first :
    (c : Char) (s : String) (ps : List String)
    → push_char c (onto_first s ps) ≡ onto_first (String.◌∷◌ c s) ps
push_char-onto_first c s [] = refl
push_char-onto_first c s (p ∷ ps) = rw (cons-append c s p) refl

push_char_lem : (c : Char) (ps : List String) → push_char c ps ≡ onto_first (String.◌∷◌ c "") ps
push_char_lem c [] = refl
push_char_lem c (p ∷ ps) = rw (cons-append c "" p, nil-append p) refl

-- The quote in front of a text
abbrev pub open_quote : String → String
open_quote s = String.◌∷◌ "\"" s

pub cat-quote : (t : String) → cat "\"" t ≡ open_quote t
cat-quote t = cons-append "\"" "" t ∙ ap open_quote (nil-append t)

cat-quoted : (s t : String) → cat (quoted s) t ≡ open_quote (cat s (open_quote t))
cat-quoted s t =
    ap (λ u. cat u t) (cat-quote (cat s "\""))
    ∙ cons-append "\"" (cat s "\"") t
    ∙ ap open_quote (append_assoc s "\"" t ∙ ap (cat s) (cat-quote t))

abbrev within : Scan
within = record start { quote = some 34 }

pieces_from-within :
    (s t : String)
    → is_plain s ≡ true
    → pieces_from within (cat s (open_quote t)) ≡ onto_first (cat s "\"") (pieces_from start t)
unfolding pieces_from is_plain
pieces_from-within String.[] t h =
    rw (nil-append (open_quote t)) (push_char_lem "\"" (pieces_from start t))
pieces_from-within (String.◌∷◌ c s) t h = elim (Bool-cases (is c 34)) [
  | inl closes ↦ cc
  | inr goes_on ↦
      rw (cons-append c s (open_quote t), cons-append c s "\"", goes_on)
        (ap (push_char c) (pieces_from-within s t (rw goes_on at h))
          ∙ push_char-onto_first c (cat s "\"") (pieces_from start t))
]

pieces_from-open :
    (u : String) → pieces_from start (open_quote u) ≡ push_char "\"" (pieces_from within u)
unfolding pieces_from
pieces_from-open u = refl

pieces_from-quoted :
    (s t : String)
    → is_plain s ≡ true
    → pieces_from start (cat (quoted s) t) ≡ onto_first (quoted s) (pieces_from start t)
pieces_from-quoted s t h =
    ap (pieces_from start) (cat-quoted s t)
    ∙ pieces_from-open (cat s (open_quote t))
    ∙ ap (push_char "\"") (pieces_from-within s t h)
    ∙ push_char-onto_first "\"" (cat s "\"") (pieces_from start t)
    ∙ ap (λ u. onto_first u (pieces_from start t)) (sym (cat-quote (cat s "\"")))

-- The pieces behind the first one keep the space that follows the comma.
abbrev pub spaced : List String → List String
spaced [] = []
spaced (s ∷ ss) = String.◌∷◌ " " (quoted s) ∷ spaced ss

cat-comma : (t : String) → cat ", " t ≡ String.◌∷◌ "," (String.◌∷◌ " " t)
cat-comma t =
    cons-append "," " " t
    ∙ ap (String.◌∷◌ ",") (cons-append " " "" t ∙ ap (String.◌∷◌ " ") (nil-append t))

pieces_from-comma :
    (t : String)
    → pieces_from start (String.◌∷◌ "," (String.◌∷◌ " " t))
      ≡ "" ∷ push_char " " (pieces_from start t)
unfolding pieces_from
pieces_from-comma t = refl

pieces_from-nil : pieces_from start "" ≡ "" ∷ []
unfolding pieces_from
pieces_from-nil = refl

pub pieces_from-join :
    (s : String) (ss : List String)
    → all_plain (s ∷ ss) ≡ true
    → pieces_from start (join_with ", " (quoted_all (s ∷ ss))) ≡ quoted s ∷ spaced ss
pieces_from-join s [] h =
    ap (pieces_from start) (sym (append-nil (quoted s)))
    ∙ pieces_from-quoted s "" (ground arith)
    ∙ rw pieces_from-nil (ap (λ u. u ∷ []) (append-nil (quoted s)))
pieces_from-join s (t ∷ ts) h =
    let later = join_with ", " (quoted_all (t ∷ ts)) in
    pieces_from-quoted s (cat ", " later) (ground arith)
    ∙ ap (λ u. onto_first (quoted s) (pieces_from start u)) (cat-comma later)
    ∙ ap (onto_first (quoted s)) (pieces_from-comma later)
    ∙ ap (λ ps. onto_first (quoted s) ("" ∷ push_char " " ps))
        (pieces_from-join t ts (ground arith))
    ∙ ap (λ u. u ∷ spaced (t ∷ ts)) (append-nil (quoted s))
