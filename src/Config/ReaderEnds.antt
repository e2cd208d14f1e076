-- ===== src/Config/ReaderEnds.antt =====
-- `load_yaml` ends: what each of `parse_block`, `_parse_seq` and `_parse_map` leaves.
use saga_forge.Base.{
  ℕ, zero, suc, ◌+◌, ◌*◌, ◌≤◌, Bool, true, false, ◌&&◌, List, [], ◌∷◌, String, ◌≡◌, refl, inl, inr,
  Bool-cases, ◌==◌, str_eq, length, any, if◌then◌else◌, arith,
}
use saga_forge.Text.{cat}
use saga_forge.Config.Values.{
  Value, null, Values, nil, cons, empty, Parsed, ok, malformed, out_of_fuel, ◌>>=◌,
}
use saga_forge.Config.LineRules.{unsupported, anchor_names}
use saga_forge.Config.FlowEnds.{Ends, Ends-if}
use saga_forge.Config.Reader.{
  indent, is_item, item_rest, is_flow, starts_block_map, spaces, Left, flow, plain, parse_block,
  parse_seq, parse_map, whole, parse_lines, not_blank, comments_off, split_feeds, load_yaml,
}
use saga_forge.Config.LinesLeft.{
  Leaves, Leaves-then, Leaves-if, Leaves-≤, Leaves-flow, Leaves-plain, indent-spaces,
}
use saga_forge.Config.MapsLeft.{
  BlockLeaves, SeqLeaves, MapLeaves, halts, MapSteps, BlockLeaves-suc, MapSteps-suc,
  parse_map-halts, MapLeaves-suc,
}

-- The items from a value on, with the call for the lines behind it
abbrev items_behind : (List String → Left Values) → Left Value → Left Values
items_behind more item = do (v, left) ← item; (vs, left') ← more left; ok (cons v vs, left')

behind-if :
    (more : List String → Left Values) (n : ℕ) (b : Bool) (x y : Left Value)
    → Leaves n (items_behind more x)
    → Leaves n (items_behind more y)
    → Leaves n (items_behind more (if b then x else y))
behind-if more n true x y h k = h
behind-if more n false x y h k = k

behind-Leaves :
    (fuel ind n : ℕ) (item : Left Value)
    → SeqLeaves fuel
    → 3 * n + 2 ≤ fuel
    → Leaves n item
    → Leaves (suc n) (items_behind (parse_seq fuel ind) item)
behind-Leaves fuel ind n item seqs h k = Leaves-then n (suc n) item _ k (λ v left short.
    Leaves-then n (suc n) (parse_seq fuel ind left) (λ x. ok (cons v x.0, x.1))
      (Leaves-≤ (length left) n (parse_seq fuel ind left) (seqs ind left (omega arith)) short)
      (λ vs left' short'. omega arith))

parse_seq-halts :
    (fuel ind : ℕ) (line : String) (ls : List String)
    → suc ind ≤ indent line
    → parse_seq (suc fuel) ind (line ∷ ls) ≡ ok (nil, line ∷ ls)
unfolding parse_block
parse_seq-halts fuel ind line ls h =
    let other : (indent line == ind) ≡ false = ground arith in rw other refl

-- A text of an item that opens a dict of its own, written as a line of it
behind-entry :
    (fuel ind : ℕ) (rest : String) (ls : List String)
    → SeqLeaves (suc fuel)
    → MapSteps (suc fuel)
    → 3 * length ls + 4 ≤ suc fuel
    → Leaves (suc (length ls)) (
        items_behind
          (parse_seq (suc fuel) ind)
          (parse_map (suc fuel) (ind + 2) empty (cat (spaces (ind + 2)) rest ∷ ls)))
behind-entry fuel ind rest ls seqs steps h =
    let line = cat (spaces (ind + 2)) rest in
    elim (Bool-cases (halts (ind + 2) line)) [
      | inl no_key ↦
          rw
            (
              parse_map-halts fuel (ind + 2) empty line ls no_key,
              parse_seq-halts fuel ind line ls (omega (arith, indent-spaces (ind + 2) rest)),
            )
            (omega arith)
      | inr is_key ↦
          behind-Leaves (suc fuel) ind (length ls) _ seqs (omega arith)
            (steps (ind + 2) empty line ls h is_key)
    ]

SeqLeaves-suc :
    (fuel : ℕ)
    → BlockLeaves (suc fuel)
    → SeqLeaves (suc fuel)
    → MapSteps (suc fuel)
    → SeqLeaves (suc (suc fuel))
unfolding parse_block
SeqLeaves-suc fuel blocks seqs steps ind [] h = omega arith
SeqLeaves-suc fuel blocks seqs steps ind (line ∷ ls) h =
    let rest = item_rest line in
    let more = parse_seq (suc fuel) ind in
    let behind = behind-Leaves (suc fuel) ind (length ls) in
    Leaves-if (suc (length ls)) ((indent line == ind) && is_item line) _ (ok (nil, line ∷ ls))
      (behind-if more (suc (length ls)) (is_flow rest) (flow rest ls) _
        (behind (flow rest ls) seqs (omega arith) (Leaves-flow rest ls))
        (behind-if more (suc (length ls)) (starts_block_map rest) _ _
          (behind-entry fuel ind rest ls seqs steps (omega arith))
          (behind-if more (suc (length ls)) (str_eq rest "") (parse_block (suc fuel) (ind + 1) ls)
            (plain rest ls)
            (behind (parse_block (suc fuel) (ind + 1) ls) seqs (omega arith)
              (blocks (ind + 1) ls (omega arith)))
            (behind (plain rest ls) seqs (omega arith) (Leaves-plain rest ls)))))
      (omega arith)

-- All of the reader with the same fuel
record ReaderLeaves (fuel : ℕ) : Type 0 where
  blocks : BlockLeaves fuel
  seqs : SeqLeaves fuel
  maps : MapLeaves fuel
  steps : MapSteps fuel

SeqLeaves-next : (fuel : ℕ) → ReaderLeaves fuel → SeqLeaves (suc fuel)
unfolding parse_block
SeqLeaves-next zero r ind ls h = let no : ⊥ = omega arith in elim no [ ]
SeqLeaves-next (suc fuel) r ind ls h = SeqLeaves-suc fuel r.blocks r.seqs r.steps ind ls h

ReaderLeaves-all : (fuel : ℕ) → ReaderLeaves fuel
unfolding parse_block
ReaderLeaves-all zero = record {
  blocks = λ low ls h. omega arith;
  seqs = λ ind ls h. omega arith;
  maps = λ ind out ls h. omega arith;
  steps = λ ind out line ls h is_key. omega arith;
}
ReaderLeaves-all (suc fuel) =
    let below = ReaderLeaves-all fuel in
    let steps = MapSteps-suc fuel below.blocks below.seqs below.maps in
    record {
      blocks = BlockLeaves-suc fuel below.seqs below.maps;
      seqs = SeqLeaves-next fuel below;
      maps = MapLeaves-suc fuel steps;
      steps = steps;
    }

Ends-whole : (v : Value) (ls : List String) → Ends (whole (v, ls))
Ends-whole v (l ∷ ls) = tt
Ends-whole null [] = tt
Ends-whole v [] = tt

Leaves-Ends :
    {A B : Type 0} (n : ℕ) (r : Left A) (f : A × List String → Parsed B)
    → Leaves n r
    → ((a : A) (ls : List String) → Ends (f (a, ls)))
    → Ends (r >>= f)
Leaves-Ends n (ok (a, ls)) f h k = k a ls
Leaves-Ends n malformed f h k = tt
Leaves-Ends n out_of_fuel f h k = h

Ends-parse_lines : (ls : List String) → Ends (parse_lines ls)
Ends-parse_lines ls =
    Leaves-Ends (length ls) (parse_block (3 * length ls + 3) 0 ls) whole
      ((ReaderLeaves-all (3 * length ls + 3)).blocks 0 ls (omega arith)) Ends-whole

-- Every text has an outcome: `load_yaml` returns a value or raises its `ValueError`, and the fuel
-- of the model, three steps for a line and three, never runs out.
pub load_yaml-Ends : (text : String) → Ends (load_yaml text)
unfolding load_yaml
load_yaml-Ends text =
    let ls = not_blank (comments_off (split_feeds text)) in
    Ends-if (any (λ l. unsupported l (anchor_names (comments_off (split_feeds text)))) ls) malformed
      (parse_lines ls) tt (Ends-parse_lines ls)
