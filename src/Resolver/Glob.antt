-- ===== src/Resolver/Glob.antt =====
-- The globs of `resolve-spec-paths.py`: their translation into a regular expression, and what that
-- expression matches.
use saga_forge.Base.{
  Bool, true, false, not, ◌&&◌, ◌||◌, List, [], ◌∷◌, Char, code, String, if◌then◌else◌,
}
use saga_forge.Text.{is}

-- The pieces of the expression: one character, `[^/]*`, `[^/]`, `.*`, `(?:.*/)?` and `(?:/.*)?`.
pub data Piece : Type 0 where
  letter : Char → Piece
  in_segment : Piece
  one_in_segment : Piece
  anything : Piece
  folders : Piece
  below : Piece

abbrev pub is_slash : Char → Bool
is_slash c = is c b'/'

abbrev posix_char : Char → Char
posix_char c = if is c 92 then "/" else c

-- `_posix`, where `os.sep` is the slash
unfoldable pub posix : String → String
posix String.[] = String.[]
posix (String.◌∷◌ c s) = String.◌∷◌ (posix_char c) (posix s)

-- The piece of one character that is no part of `**`.
abbrev pub piece_of : Char → Piece
piece_of c = if is c b'*' then in_segment else if is c b'?' then one_in_segment else letter c

abbrev pub is_double : Char → Char → Bool
is_double c d = is c b'*' && is d b'*'

-- `**` at the end of the pattern: behind a slash it takes that along. `out` is in reverse.
abbrev pub end_double : List Piece → List Piece
end_double [] = anything ∷ []
end_double (letter c ∷ out) = if is_slash c then below ∷ out else anything ∷ letter c ∷ out
end_double (p ∷ out) = anything ∷ p ∷ out

-- The loop of `_glob_to_regex`, with `out` in reverse.
unfoldable pub glob_from : List Piece → String → List Piece
glob_from out String.[] = out
glob_from out (String.◌∷◌ c String.[]) = piece_of c ∷ out
glob_from out (String.◌∷◌ c (String.◌∷◌ d String.[])) =
    if is_double c d then end_double out else piece_of d ∷ piece_of c ∷ out
glob_from out (String.◌∷◌ c (String.◌∷◌ d (String.◌∷◌ e s))) =
    let deep = glob_from (folders ∷ out) s in
    let double = glob_from (anything ∷ out) (String.◌∷◌ e s) in
    let single = glob_from (piece_of c ∷ out) (String.◌∷◌ d (String.◌∷◌ e s)) in
    if is_double c d then if is_slash e then deep else double else single

abbrev pub rev_onto : List Piece → List Piece → List Piece
rev_onto [] ps = ps
rev_onto (p ∷ out) ps = rev_onto out (p ∷ ps)

-- `_glob_to_regex`
unfoldable pub glob_to_regex : String → List Piece
unfolding glob_from
glob_to_regex pat = rev_onto (glob_from [] pat) []

-- `.` does not match a line feed.
abbrev pub no_feed : Char → Bool
no_feed c = not (is c 10)

abbrev pub no_slash : Char → Bool
no_slash c = not (is_slash c)

abbrev pub Rest : Type 0
Rest = String → Bool

-- `[…]*`, and the rest of the expression behind it.
unfoldable pub many : (Char → Bool) → Rest → Rest
many test rest String.[] = rest String.[]
many test rest (String.◌∷◌ c s) =
    let more = many test rest s in rest (String.◌∷◌ c s) || (test c && more)

abbrev pub one : (Char → Bool) → Rest → Rest
one test rest String.[] = false
one test rest (String.◌∷◌ c s) = test c && rest s

-- The text begins with what the piece matches, and goes on as the rest of the expression does.
abbrev pub match_piece : Piece → Rest → Rest
match_piece (letter x) rest s = one (λ c. is c (code x)) rest s
match_piece in_segment rest s = many no_slash rest s
match_piece one_in_segment rest s = one no_slash rest s
match_piece anything rest s = many no_feed rest s
match_piece folders rest s = rest s || many no_feed (one is_slash rest) s
match_piece below rest s = rest s || one is_slash (many no_feed rest) s

-- `$`: the end, or a line feed there.
abbrev pub at_end : String → Bool
at_end String.[] = true
at_end (String.◌∷◌ c String.[]) = is c 10
at_end _ = false

-- `re.match(…)` with the pieces and `$`
unfoldable pub match_pieces : List Piece → String → Bool
unfolding many
match_pieces [] s = at_end s
match_pieces (p ∷ ps) s = match_piece p (match_pieces ps) s

-- `_glob_matches`
unfoldable pub glob_matches : String → String → Bool
unfolding glob_to_regex match_pieces posix
glob_matches pat f = match_pieces (glob_to_regex (posix pat)) (posix f)
