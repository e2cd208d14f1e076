-- ===== src/Config/FlowEnds.antt =====
-- `_parse_flow` ends: a piece is shorter than the text that it stands in.
use saga_forge.Base.{
  ℕ, zero, suc, ◌≤◌, ◌<◌, Bool, true, false, List, [], ◌∷◌, Char, String, Option, none, some, ◌≡◌,
  inl, inr, Bool-cases, str_eq, if◌then◌else◌, arith,
}
use saga_forge.Text.{strip}
use saga_forge.Resolver.{text_length}
use saga_forge.Config.Values.{Value, Fields, empty, Parsed, ok, malformed, out_of_fuel, ◌>>=◌}
use saga_forge.Config.Flow.{
  split_flow, inner, is_quoted, strip_dashes, plain_scalar, to_int, is_int, is_null_word, scalar,
  split_colon, parse_items, parse_fields, put_parsed, is_between, parse_stripped, parse_flow,
}
use saga_forge.Config.Pieces.{
  length-strip, length-inner, Short, Short-split_flow, ShortValue, ShortValue-split_colon,
}

-- The parse has an outcome.
abbrev pub Ends : {A : Type 0} → Parsed A → Type 0
Ends (ok a) = Unit {0}
Ends malformed = Unit {0}
Ends out_of_fuel = ⊥

pub Ends-then :
    {A B : Type 0} (r : Parsed A) (f : A → Parsed B)
    → Ends r
    → ((a : A) → Ends (f a))
    → Ends (r >>= f)
Ends-then (ok a) f e h = h a
Ends-then malformed f e h = tt
Ends-then out_of_fuel f e h = e

pub Ends-if : {A : Type 0} (b : Bool) (x y : Parsed A) → Ends x → Ends y → Ends (if b then x else y)
Ends-if true x y h k = h
Ends-if false x y h k = k

Ends-to_int : (p : ℕ × String) → Ends (to_int p)
Ends-to_int (zero, t) = tt
Ends-to_int (suc zero, t) = tt
Ends-to_int (suc (suc n), t) = tt

Ends-plain_scalar : (s : String) → Ends (plain_scalar s)
Ends-plain_scalar s =
    Ends-if (is_int (strip_dashes s)) (to_int (strip_dashes s)) _ (Ends-to_int (strip_dashes s)) (
      Ends-if (str_eq s "true") _ _ tt
        (Ends-if (str_eq s "false") _ _ tt (Ends-if (is_null_word s) _ _ tt tt)))

pub Ends-scalar : (s : String) → Ends (scalar s)
unfolding scalar
Ends-scalar s =
    Ends-if (str_eq (strip s) "") _ _ tt
      (Ends-if (is_quoted (strip s)) _ _ tt (Ends-plain_scalar (strip s)))

-- The calls for texts of at most `n` characters end.
abbrev EndsBelow : ℕ → (String → Parsed Value) → Type 0
EndsBelow n parse = (p : String) → text_length p ≤ n → Ends (parse p)

Ends-parse_items :
    (parse : String → Parsed Value) (n : ℕ) (ps : List String)
    → EndsBelow n parse
    → Short n ps
    → Ends (parse_items parse ps)
Ends-parse_items parse n [] e h = tt
Ends-parse_items parse n (p ∷ ps) e (a, h) =
    Ends-then (parse p) _ (e p a)
      (λ v. Ends-then (parse_items parse ps) _ (Ends-parse_items parse n ps e h) (λ vs. tt))

Ends-put_parsed :
    (parse : String → Parsed Value) (n : ℕ) (e : Option (String × String)) (d : Fields)
    → EndsBelow n parse
    → ShortValue n e
    → Ends (put_parsed parse e d)
Ends-put_parsed parse n none d e h = tt
Ends-put_parsed parse n (some (k, v)) d e h = Ends-then (parse v) _ (e v h) (λ w. tt)

ShortValue-≤ : (m n : ℕ) (e : Option (String × String)) → ShortValue m e → m ≤ n → ShortValue n e
ShortValue-≤ m n none h k = tt
ShortValue-≤ m n (some (x, v)) h k = omega arith

Ends-parse_fields :
    (parse : String → Parsed Value) (n : ℕ) (ps : List String) (d : Fields)
    → EndsBelow n parse
    → Short n ps
    → Ends (parse_fields parse ps d)
Ends-parse_fields parse n [] d e h = tt
Ends-parse_fields parse n (p ∷ ps) d e (a, h) =
    Ends-then (put_parsed parse (split_colon p) d) _
      (Ends-put_parsed parse n (split_colon p) d e
        (ShortValue-≤ (text_length p) n (split_colon p) (ShortValue-split_colon p) a))
      (λ d'. Ends-parse_fields parse n ps d' e h)

-- The pieces between two brackets
Below-pieces :
    (parse : String → Parsed Value) (a b : Char) (s : String)
    → ((p : String) → text_length p < text_length s → Ends (parse p))
    → is_between a b s ≡ true
    → EndsBelow (text_length (strip (inner s))) parse
Below-pieces parse a b s e h p short =
    e p (omega (arith, length-inner a b s h, length-strip (inner s)))

Ends-parse_stripped :
    (parse : String → Parsed Value) (s : String)
    → ((p : String) → text_length p < text_length s → Ends (parse p))
    → Ends (parse_stripped parse s)
Ends-parse_stripped parse s e = elim (Bool-cases (is_between "[" "]" s)) [
  | inl list ↦ rw list (
      Ends-then (parse_items parse (split_flow (strip (inner s)))) _
        (Ends-parse_items parse (text_length (strip (inner s))) (split_flow (strip (inner s)))
          (Below-pieces parse "[" "]" s e list) (Short-split_flow (strip (inner s))))
        (λ vs. tt))
  | inr not_list ↦ rw not_list (elim (Bool-cases (is_between "{" "}" s)) [
    | inl dict ↦ rw dict (
        Ends-then (parse_fields parse (split_flow (strip (inner s))) empty) _
          (Ends-parse_fields parse (text_length (strip (inner s))) (split_flow (strip (inner s)))
            empty (Below-pieces parse "{" "}" s e dict) (Short-split_flow (strip (inner s))))
          (λ d. tt))
    | inr not_dict ↦ rw not_dict (Ends-scalar s)
  ])
]

-- Fuel above the length of the text is enough.
pub Ends-parse_flow : (fuel : ℕ) (s : String) → text_length s < fuel → Ends (parse_flow fuel s)
unfolding parse_flow
Ends-parse_flow zero s h = omega arith
Ends-parse_flow (suc fuel) s h =
    Ends-parse_stripped (parse_flow fuel) (strip s)
      (λ p short. Ends-parse_flow fuel p (omega (arith, length-strip s)))
