-- ===== src/Config/Pieces.antt =====
-- How long the pieces of a flow collection are that `_split_flow` gives, and the values in them.
use saga_forge.Base.{
  ℕ, suc, ◌≤◌, ◌<◌, Bool, true, false, List, [], ◌∷◌, Char, String, Option, none, some, ◌≡◌, inl,
  inr, Bool-cases, str_eq, arith,
}
use saga_forge.Text.{is, is_space, strip, rstrip, skip_spaces, push_unless_blank}
use saga_forge.Resolver.{text_length}
use saga_forge.Config.Flow.{
  Scan, start, next_scan, is_cut, piece_or_cut, pieces_from, drop_blank, split_flow, key_onto,
  all_but_end, inner, split_colon, is_between,
}

pub length-skip_spaces : (s : String) → text_length (skip_spaces s) ≤ text_length s
unfolding text_length skip_spaces
length-skip_spaces String.[] = omega arith
length-skip_spaces (String.◌∷◌ c s) = ground (arith, length-skip_spaces s)

pub length-push :
    (c : Char) (s : String) → text_length (push_unless_blank c s) ≤ suc (text_length s)
unfolding text_length
length-push c String.[] = elim (Bool-cases (is_space c)) [
  | inl blank ↦ rw blank (omega arith)
  | inr text ↦ rw text (omega arith)
]
length-push c (String.◌∷◌ d s) = omega arith

pub length-rstrip : (s : String) → text_length (rstrip s) ≤ text_length s
unfolding text_length rstrip
length-rstrip String.[] = omega arith
length-rstrip (String.◌∷◌ c s) = omega (arith, length-push c (rstrip s), length-rstrip s)

pub length-strip : (s : String) → text_length (strip s) ≤ text_length s
unfolding strip
length-strip s = omega (arith, length-rstrip (skip_spaces s), length-skip_spaces s)

pub length-all_but_end : (s : String) → text_length (all_but_end s) ≤ text_length s
unfolding text_length all_but_end
length-all_but_end String.[] = omega arith
length-all_but_end (String.◌∷◌ c String.[]) = omega arith
length-all_but_end (String.◌∷◌ c (String.◌∷◌ d s)) =
    omega (arith, length-all_but_end (String.◌∷◌ d s))

pub length-inner :
    (a b : Char) (s : String) → is_between a b s ≡ true → text_length (inner s) < text_length s
unfolding text_length
length-inner a b String.[] h = cc
length-inner a b (String.◌∷◌ c s) h = omega (arith, length-all_but_end s)

-- No text of the list is longer than `n`.
abbrev pub Short : ℕ → List String → Type 0
Short n [] = Unit {0}
Short n (p ∷ ps) = (text_length p ≤ n) × Short n ps

pub Short-suc : (n : ℕ) (ps : List String) → Short n ps → Short (suc n) ps
Short-suc n [] h = tt
Short-suc n (p ∷ ps) (a, h) = (omega arith, Short-suc n ps h)

pub Short-piece_or_cut :
    (b : Bool) (c : Char) (n : ℕ) (ps : List String)
    → Short n ps
    → Short (suc n) (piece_or_cut b c ps)
unfolding text_length
Short-piece_or_cut true c n ps h = (omega arith, Short-suc n ps h)
Short-piece_or_cut false c n [] h = (omega arith, tt)
Short-piece_or_cut false c n (p ∷ ps) (a, h) = (omega arith, Short-suc n ps h)

pub Short-pieces_from : (st : Scan) (s : String) → Short (text_length s) (pieces_from st s)
unfolding text_length pieces_from
Short-pieces_from st String.[] = (omega arith, tt)
Short-pieces_from st (String.◌∷◌ c s) =
    Short-piece_or_cut (is_cut st.quote c st) c (text_length s)
      (pieces_from (next_scan st.quote c st) s) (Short-pieces_from (next_scan st.quote c st) s)

pub Short-drop_blank : (n : ℕ) (ps : List String) → Short n ps → Short n (drop_blank ps)
Short-drop_blank n [] h = tt
Short-drop_blank n (p ∷ []) h = elim (Bool-cases (str_eq (strip p) "")) [
  | inl blank ↦ rw blank tt
  | inr text ↦ rw text h
]
Short-drop_blank n (p ∷ q ∷ ps) (a, h) = (a, Short-drop_blank n (q ∷ ps) h)

pub Short-split_flow : (s : String) → Short (text_length s) (split_flow s)
unfolding split_flow
Short-split_flow s =
    Short-drop_blank (text_length s) (pieces_from start s) (Short-pieces_from start s)

-- The value of an entry is no longer than the entry.
abbrev pub ShortValue : ℕ → Option (String × String) → Type 0
ShortValue n none = Unit {0}
ShortValue n (some (k, v)) = text_length v ≤ n

pub ShortValue-key_onto :
    (c : Char) (n : ℕ) (e : Option (String × String))
    → ShortValue n e
    → ShortValue (suc n) (key_onto c e)
ShortValue-key_onto c n none h = tt
ShortValue-key_onto c n (some (k, v)) h = omega arith

pub ShortValue-split_colon : (s : String) → ShortValue (text_length s) (split_colon s)
unfolding text_length split_colon
ShortValue-split_colon String.[] = tt
ShortValue-split_colon (String.◌∷◌ c s) = elim (Bool-cases (is c b':')) [
  | inl colon ↦ rw colon (omega arith)
  | inr other ↦
      rw other (ShortValue-key_onto c (text_length s) (split_colon s) (ShortValue-split_colon s))
]
