-- ===== src/Config/LinesLeft.antt =====
-- How many lines a call of the reader leaves behind its value, and what `_join_wrapped` absorbs.
use text.Mathlib.TextLemmas.{cons-append}
use saga_forge.Base.{
  ℕ, zero, suc, ◌≤◌, Bool, true, false, List, [], ◌∷◌, String, length, if◌then◌else◌, arith,
}
use saga_forge.Text.{cat, strip}
use saga_forge.Config.Values.{Values, Parsed, ok, malformed, out_of_fuel, ◌>>=◌}
use saga_forge.Config.Flow.{scalar, parse_flow}
use saga_forge.Config.FlowEnds.{Ends, Ends-scalar, Ends-parse_flow}
use saga_forge.Config.Reader.{indent, spaces, text_onto, wrapped, Left, joined, flow, plain, as_seq}

-- The parse has an outcome, and a value leaves at most `n` lines.
abbrev pub Leaves : {A : Type 0} → ℕ → Left A → Type 0
Leaves n (ok (a, ls)) = length ls ≤ n
Leaves n malformed = Unit {0}
Leaves n out_of_fuel = ⊥

pub Leaves-then :
    {A B : Type 0} (m n : ℕ) (r : Left A) (f : A × List String → Left B)
    → Leaves m r
    → ((a : A) (ls : List String) → length ls ≤ m → Leaves n (f (a, ls)))
    → Leaves n (r >>= f)
Leaves-then m n (ok (a, ls)) f h k = k a ls h
Leaves-then m n malformed f h k = tt
Leaves-then m n out_of_fuel f h k = h

pub Leaves-value :
    {A B : Type 0} (n : ℕ) (r : Parsed A) (f : A → Left B)
    → Ends r
    → ((a : A) → Leaves n (f a))
    → Leaves n (r >>= f)
Leaves-value n (ok a) f h k = k a
Leaves-value n malformed f h k = tt
Leaves-value n out_of_fuel f h k = h

pub Leaves-if :
    {A : Type 0} (n : ℕ) (b : Bool) (x y : Left A)
    → Leaves n x
    → Leaves n y
    → Leaves n (if b then x else y)
Leaves-if n true x y h k = h
Leaves-if n false x y h k = k

pub Leaves-≤ : {A : Type 0} (m n : ℕ) (r : Left A) → Leaves m r → m ≤ n → Leaves n r
Leaves-≤ m n (ok (a, ls)) h k = omega arith
Leaves-≤ m n malformed h k = tt
Leaves-≤ m n out_of_fuel h k = h

pub Leaves-as_seq : (n : ℕ) (r : Left Values) → Leaves n r → Leaves n (as_seq r)
Leaves-as_seq n r h = Leaves-then n n r _ h (λ vs ls k. k)

pub Leaves-flow : (s : String) (ls : List String) → Leaves (length ls) (flow s ls)
Leaves-flow s ls =
    Leaves-value (length ls) (parse_flow _ s) _ (Ends-parse_flow _ s (omega arith))
      (λ v. omega arith)

pub Leaves-plain : (s : String) (ls : List String) → Leaves (length ls) (plain s ls)
Leaves-plain s ls = Leaves-value (length ls) (scalar s) _ (Ends-scalar s) (λ v. omega arith)

-- At most `n` lines are behind those that are absorbed.
abbrev pub Rest : ℕ → List String × List String → Type 0
Rest n (ts, ls) = length ls ≤ n

pub Rest-text_onto :
    (t : String) (n : ℕ) (p : List String × List String) → Rest n p → Rest (suc n) (text_onto t p)
Rest-text_onto t n (ts, ls) h = omega arith

pub Rest-if :
    (n : ℕ) (b : Bool) (p q : List String × List String)
    → Rest n p
    → Rest n q
    → Rest n (if b then p else q)
Rest-if n true p q h k = h
Rest-if n false p q h k = k

pub Rest-wrapped : (ind : ℕ) (ls : List String) → Rest (length ls) (wrapped ind ls)
unfolding wrapped
Rest-wrapped ind [] = omega arith
Rest-wrapped ind (line ∷ ls) =
    Rest-if (suc (length ls)) _ ([], line ∷ ls) _ (omega arith)
      (Rest-text_onto (strip line) (length ls) (wrapped ind ls) (Rest-wrapped ind ls))

pub Leaves-joined :
    (val : String) (n : ℕ) (p : List String × List String) → Rest n p → Leaves n (joined val p)
Leaves-joined val n (parts, ls) h = Leaves-value n (scalar _) _ (Ends-scalar _) (λ v. h)

-- A line that is written behind spaces is indented by them at least.
pub indent-spaces : (n : ℕ) (s : String) → n ≤ indent (cat (spaces n) s)
unfolding indent spaces
indent-spaces zero s = omega arith
indent-spaces (suc n) s = rw (cons-append " " (spaces n) s) (omega (arith, indent-spaces n s))
