-- ===== src/Config/MapsLeft.antt =====
-- What `parse_block` and `_parse_map` leave, given what the calls of them with less fuel do.
use saga_forge.Base.{
  ℕ, suc, ◌+◌, ◌*◌, ◌≤◌, Bool, true, false, not, ◌||◌, List, [], ◌∷◌, String, ◌≡◌, refl, inl, inr,
  Bool-cases, ◌==◌, str_eq, length, is_some, ltb, arith,
}
use saga_forge.Text.{strip}
use saga_forge.Config.Values.{Value, null, map, Fields, empty, put, ok, malformed}
use saga_forge.Config.Flow.{split_colon}
use saga_forge.Config.LineRules.{split_key}
use saga_forge.Config.Reader.{
  indent, is_item, is_flow, key_value, wrapped, Left, as_seq, next_is_item, parse_block, parse_seq,
  parse_map,
}
use saga_forge.Config.LinesLeft.{
  Leaves, Leaves-then, Leaves-if, Leaves-≤, Leaves-as_seq, Leaves-flow, Rest-wrapped, Leaves-joined,
}

-- With enough fuel, no call leaves more lines than it is given.
abbrev pub BlockLeaves : ℕ → Type 0
BlockLeaves fuel =
    (low : ℕ) (ls : List String)
    → 3 * length ls + 3 ≤ fuel
    → Leaves (length ls) (parse_block fuel low ls)

abbrev pub SeqLeaves : ℕ → Type 0
SeqLeaves fuel =
    (ind : ℕ) (ls : List String)
    → 3 * length ls + 2 ≤ fuel
    → Leaves (length ls) (parse_seq fuel ind ls)

abbrev pub MapLeaves : ℕ → Type 0
MapLeaves fuel =
    (ind : ℕ) (out : Fields) (ls : List String)
    → 3 * length ls + 1 ≤ fuel
    → Leaves (length ls) (parse_map fuel ind out ls)

-- The line is no key at this indentation.
abbrev pub halts : ℕ → String → Bool
halts ind line = not (indent line == ind) || is_item line

-- A dict with a key leaves fewer lines.
abbrev pub MapSteps : ℕ → Type 0
MapSteps fuel =
    (ind : ℕ) (out : Fields) (line : String) (ls : List String)
    → 3 * length ls + 4 ≤ fuel
    → halts ind line ≡ false
    → Leaves (length ls) (parse_map fuel ind out (line ∷ ls))

pub BlockLeaves-suc : (fuel : ℕ) → SeqLeaves fuel → MapLeaves fuel → BlockLeaves (suc fuel)
unfolding parse_block
BlockLeaves-suc fuel seqs maps low [] h = omega arith
BlockLeaves-suc fuel seqs maps low (line ∷ ls) h =
    Leaves-if (suc (length ls)) (ltb (indent line) low) (ok (null, line ∷ ls)) _ (omega arith) (
      Leaves-if (suc (length ls)) (is_item line) _ _
        (Leaves-as_seq (suc (length ls)) (parse_seq fuel (indent line) (line ∷ ls))
          (seqs (indent line) (line ∷ ls) (omega arith)))
        (maps (indent line) empty (line ∷ ls) (omega arith)))

pub Leaves-key_value :
    (val : String) (ind : ℕ) (ls : List String) (items block : Left Value)
    → Leaves (length ls) items
    → Leaves (length ls) block
    → Leaves (length ls) (key_value val ind ls items block)
Leaves-key_value val ind ls items block h k =
    Leaves-if (length ls) (str_eq val "") _ _
      (Leaves-if (length ls) (next_is_item ind ls) items block h k)
      (Leaves-if (length ls) (is_flow val) _ _ (Leaves-flow val ls)
        (Leaves-joined val (length ls) (wrapped ind ls) (Rest-wrapped ind ls)))

pub MapSteps-suc :
    (fuel : ℕ) → BlockLeaves fuel → SeqLeaves fuel → MapLeaves fuel → MapSteps (suc fuel)
unfolding parse_block
MapSteps-suc fuel blocks seqs maps ind out line ls h is_key =
    let key = (split_key (strip line)).0 in
    let val = (split_key (strip line)).1 in
    let value =
      key_value val ind ls (as_seq (parse_seq fuel ind ls)) (parse_block fuel (ind + 1) ls) in
    rw is_key (
      Leaves-if (length ls) (is_some (split_colon (strip line))) _ malformed
        (Leaves-then (length ls) (length ls) value (λ x. parse_map fuel ind (put key x.0 out) x.1)
          (Leaves-key_value val ind ls _ _
            (Leaves-as_seq (length ls) (parse_seq fuel ind ls) (seqs ind ls (omega arith)))
            (blocks (ind + 1) ls (omega arith)))
          (λ v left k.
            Leaves-≤ (length left) (length ls) (parse_map fuel ind (put key v out) left)
              (maps ind (put key v out) left (omega arith)) k))
        tt)

-- A line that is no key is left where it is.
pub parse_map-halts :
    (fuel ind : ℕ) (out : Fields) (line : String) (ls : List String)
    → halts ind line ≡ true
    → parse_map (suc fuel) ind out (line ∷ ls) ≡ ok (map out, line ∷ ls)
unfolding parse_block
parse_map-halts fuel ind out line ls h = rw h refl

pub MapLeaves-suc : (fuel : ℕ) → MapSteps (suc fuel) → MapLeaves (suc fuel)
unfolding parse_block
MapLeaves-suc fuel steps ind out [] h = omega arith
MapLeaves-suc fuel steps ind out (line ∷ ls) h = elim (Bool-cases (halts ind line)) [
  | inl no_key ↦ rw (parse_map-halts fuel ind out line ls no_key) (omega arith)
  | inr is_key ↦
      Leaves-≤ (length ls) (suc (length ls)) (parse_map (suc fuel) ind out (line ∷ ls))
        (steps ind out line ls (omega arith) is_key) (omega arith)
]
