-- ===== src/Validate/BlockText.antt =====
-- The text of a block of deltas: the lines from one place on up to another.
use saga_forge.Base.{
  ℕ, zero, suc, ◌+◌, ◌-◌, true, false, ◌&&◌, List, [], ◌∷◌, String, leb, ltb, ◌≡◌, refl, sym, ap,
  inl, inr, Bool-cases, if◌then◌else◌, arith,
}
use saga_forge.Text.{splitlines, join_with}
use saga_forge.Validate.{Block, block_text, take_lines, drop_lines}

-- The lines from one place on up to another, where the first has the place `at`
abbrev pub lines_between : ℕ → ℕ → ℕ → List String → List String
lines_between at from to [] = []
lines_between at from to (l ∷ ls) =
    let rest = lines_between (suc at) from to ls in
    if leb from at && ltb at to then l ∷ rest else rest

take_lines_nil : (n : ℕ) → take_lines n [] ≡ []
take_lines_nil zero = refl
take_lines_nil (suc n) = refl

lines_between-take_lines :
    (at from to : ℕ) (ls : List String)
    → leb from at ≡ true
    → lines_between at from to ls ≡ take_lines (to - at) ls
lines_between-take_lines at from to [] h = sym (take_lines_nil (to - at))
lines_between-take_lines at from to (l ∷ ls) h =
    let rest = lines_between-take_lines (suc at) from to ls (ground (arith, h)) in
    elim (Bool-cases (ltb at to)) [
      | inl below ↦
          let counted : to - at ≡ suc (to - suc at) = ground (arith, below) in
          rw (h, below, counted, rest) refl
      | inr behind ↦
          let none_left : to - at ≡ 0 = ground (arith, behind) in
          let none_behind : to - suc at ≡ 0 = ground (arith, behind) in
          rw (h, behind, none_left, rest, none_behind) refl
    ]

lines_between-drop_lines :
    (k at to : ℕ) (ls : List String)
    → lines_between at (k + at) to ls ≡ take_lines (to - (k + at)) (drop_lines k ls)
lines_between-drop_lines zero at to ls =
    let same : 0 + at ≡ at = omega arith in
    rw same (lines_between-take_lines at at to ls (ground arith))
lines_between-drop_lines (suc k) at to [] = sym (take_lines_nil (to - (suc k + at)))
lines_between-drop_lines (suc k) at to (l ∷ ls) =
    let before : leb (suc k + at) at ≡ false = ground arith in
    let shifted : suc k + at ≡ k + suc at = omega arith in
    rw before (rw shifted (lines_between-drop_lines k (suc at) to ls))

-- The text of a block: the lines behind its marker up to its end
abbrev pub text_of_block : String → Block → String
text_of_block text b = join_with "\n" (lines_between 0 b.start b.end (splitlines text))

pub text_of_block_lem : (text : String) (b : Block) → block_text text b ≡ text_of_block text b
text_of_block_lem text b =
    let lines_eq = lines_between-drop_lines b.start 0 b.end (splitlines text) in
    let start_eq : b.start + 0 ≡ b.start = omega arith in
    ap (join_with "\n") (sym (rw start_eq at lines_eq))
