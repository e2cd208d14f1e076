-- ===== src/Resolver/Segments.antt =====
-- What a glob without `**` keeps: the number of slashes.
use saga_forge.Base.{
  ℕ, suc, Bool, true, false, ◌||◌, List, [], ◌∷◌, Char, String, ◌≡◌, refl, inl, inr, Bool-cases,
  arith,
}
use saga_forge.Text.{is}
use saga_forge.Resolver.Glob.{
  Piece, letter, is_slash, posix, piece_of, is_double, glob_from, rev_onto, glob_to_regex, no_slash,
  many, one, at_end, Rest, match_piece, match_pieces, glob_matches,
}

abbrev count_if : Bool → ℕ → ℕ
count_if true n = suc n
count_if false n = n

unfoldable pub slashes : String → ℕ
slashes String.[] = 0
slashes (String.◌∷◌ c s) = count_if (is_slash c) (slashes s)

-- Two stars side by side stand somewhere in the pattern.
unfoldable pub has_double : String → Bool
has_double (String.◌∷◌ c (String.◌∷◌ d s)) = is_double c d || has_double (String.◌∷◌ d s)
has_double _ = false

pieces : String → List Piece
pieces String.[] = []
pieces (String.◌∷◌ c s) = piece_of c ∷ pieces s

glob_from-pieces :
    (out : List Piece) (s : String)
    → has_double s ≡ false
    → rev_onto (glob_from out s) [] ≡ rev_onto out (pieces s)
unfolding glob_from has_double pieces
glob_from-pieces out String.[] h = refl
glob_from-pieces out (String.◌∷◌ c String.[]) h = refl
glob_from-pieces out (String.◌∷◌ c (String.◌∷◌ d String.[])) h = ground arith
glob_from-pieces out (String.◌∷◌ c (String.◌∷◌ d (String.◌∷◌ e s))) h =
    elim (Bool-cases (is_double c d)) [
      | inl double ↦ cc
      | inr single ↦
          rw single
            (glob_from-pieces (piece_of c ∷ out) (String.◌∷◌ d (String.◌∷◌ e s)) (rw single at h))
    ]

-- The texts that go on as `rest` does have `n` slashes.
abbrev Counts : ℕ → Rest → Type 0
Counts n rest = (s : String) → rest s ≡ true → slashes s ≡ n

many-Counts : (n : ℕ) (rest : Rest) → Counts n rest → Counts n (many no_slash rest)
unfolding many slashes
many-Counts n rest h String.[] m = h String.[] m
many-Counts n rest h (String.◌∷◌ c s) m = ground (arith, h (String.◌∷◌ c s), many-Counts n rest h s)

in_segment-Counts : (n : ℕ) (rest : Rest) → Counts n rest → Counts n (one no_slash rest)
unfolding slashes
in_segment-Counts n rest h String.[] m = cc
in_segment-Counts n rest h (String.◌∷◌ d s) m = ground (arith, h s)

letter-Counts :
    (c : Char) (n : ℕ) (rest : Rest)
    → Counts n rest
    → Counts (count_if (is_slash c) n) (match_piece (letter c) rest)
unfolding slashes
letter-Counts c n rest h String.[] m = cc
letter-Counts c n rest h (String.◌∷◌ d s) m = ground (arith, h s)

match_piece-Counts :
    (c : Char) (n : ℕ) (rest : Rest)
    → Counts n rest
    → Counts (count_if (is_slash c) n) (match_piece (piece_of c) rest)
match_piece-Counts c n rest h s m = elim (Bool-cases (is c b'*')) [
  | inl star ↦
      let plain : is_slash c ≡ false = ground arith in
      rw plain (many-Counts n rest h s (rw star at m))
  | inr other ↦ elim (Bool-cases (is c b'?')) [
    | inl mark ↦
        let plain : is_slash c ≡ false = ground arith in
        rw plain (in_segment-Counts n rest h s (rw (other, mark) at m))
    | inr plain ↦ letter-Counts c n rest h s (rw (other, plain) at m)
  ]
]

at_end-Counts : Counts 0 at_end
unfolding slashes
at_end-Counts String.[] m = refl
at_end-Counts (String.◌∷◌ c String.[]) m = ground arith
at_end-Counts (String.◌∷◌ c (String.◌∷◌ d s)) m = cc

match_pieces-Counts : (pat : String) → Counts (slashes pat) (match_pieces (pieces pat))
unfolding match_pieces slashes pieces
match_pieces-Counts String.[] s m = at_end-Counts s m
match_pieces-Counts (String.◌∷◌ c pat) s m =
    match_piece-Counts c (slashes pat) (match_pieces (pieces pat)) (match_pieces-Counts pat) s m

-- Behind a glob without `**`, a path has as many slashes as the glob: `*` and `?` never cross one.
pub slashes-glob_matches :
    (pat f : String)
    → has_double (posix pat) ≡ false
    → glob_matches pat f ≡ true
    → slashes (posix f) ≡ slashes (posix pat)
unfolding glob_matches glob_to_regex
slashes-glob_matches pat f single matched =
    match_pieces-Counts (posix pat) (posix f)
      (rw (glob_from-pieces [] (posix pat) single) at matched)
