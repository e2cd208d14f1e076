-- ===== src/Resolver/Folders.antt =====
-- What `folder/**` matches, for a folder without wildcards.
use text.Mathlib.TextLemmas.{nil-append, cons-append}
use saga_forge.Base.{
  Bool, true, false, not, ◌&&◌, ◌||◌, List, [], ◌∷◌, Char, String, ◌≡◌, refl, sym, ap, ◌∙◌, str_eq,
  arith,
}
use saga_forge.Text.{is, cat, after_prefix, starts}
use saga_forge.Text.Prefixes.{after, opens, opens-after_prefix}
use saga_forge.Resolver.Glob.{
  Piece, letter, below, posix, piece_of, is_double, glob_from, rev_onto, glob_to_regex, no_feed,
  many, at_end, match_pieces, glob_matches,
}

abbrev plain : Char → Bool
plain c = not (is c b'*' || is c b'?')

-- No wildcard stands in the text.
unfoldable pub is_literal : String → Bool
is_literal String.[] = true
is_literal (String.◌∷◌ c s) = plain c && is_literal s

-- No line feed stands in the text.
unfoldable pub is_one_line : String → Bool
is_one_line String.[] = true
is_one_line (String.◌∷◌ c s) = no_feed c && is_one_line s

letters : String → List Piece → List Piece
letters String.[] ps = ps
letters (String.◌∷◌ c s) ps = letter c ∷ letters s ps

posix-cat : (s t : String) → posix (cat s t) ≡ cat (posix s) (posix t)
unfolding posix
posix-cat String.[] t = rw (nil-append, nil-append) refl
posix-cat (String.◌∷◌ c s) t = rw (cons-append, cons-append, posix-cat s t) refl

piece_of-plain : (c : Char) → plain c ≡ true → piece_of c ≡ letter c
piece_of-plain c h = ground arith

single : (c d : Char) → plain c ≡ true → is_double c d ≡ false
single c d h = ground arith

-- A plain character in front of a text of two more at least.
glob_from-plain :
    (out : List Piece) (c d e : Char) (s : String)
    → plain c ≡ true
    → glob_from out (String.◌∷◌ c (String.◌∷◌ d (String.◌∷◌ e s)))
      ≡ glob_from (letter c ∷ out) (String.◌∷◌ d (String.◌∷◌ e s))
unfolding glob_from
glob_from-plain out c d e s p = rw (single c d p, piece_of-plain c p) refl

glob_from-below :
    (out : List Piece) (d : String)
    → is_literal d ≡ true
    → rev_onto (glob_from out (cat d "/**")) [] ≡ rev_onto out (letters d (below ∷ []))
unfolding glob_from letters is_literal
glob_from-below out String.[] h = refl
glob_from-below out (String.◌∷◌ c String.[]) h =
    rw (cons-append, glob_from-plain out c "/" "*" "*" (ground arith)) refl
glob_from-below out (String.◌∷◌ c (String.◌∷◌ e String.[])) h =
    rw (cons-append, cons-append, glob_from-plain out c e "/" "**" (ground arith))
      (rw cons-append at (glob_from-below (letter c ∷ out) (String.◌∷◌ e String.[]) (ground arith)))
glob_from-below out (String.◌∷◌ c (String.◌∷◌ e (String.◌∷◌ k s))) h =
    rw
      (
        cons-append,
        cons-append,
        cons-append,
        glob_from-plain out c e k (cat s "/**") (ground arith),
      )
      (rw (cons-append, cons-append) at
        (glob_from-below (letter c ∷ out) (String.◌∷◌ e (String.◌∷◌ k s)) (ground arith)))

match_pieces-letters :
    (d s : String) (ps : List Piece)
    → match_pieces (letters d ps) s ≡ after (match_pieces ps) (after_prefix d s)
unfolding match_pieces letters after_prefix
match_pieces-letters String.[] s ps = refl
match_pieces-letters (String.◌∷◌ c d) String.[] ps = refl
match_pieces-letters (String.◌∷◌ c d) (String.◌∷◌ x s) ps =
    ground (arith, match_pieces-letters d s ps)

many-at_end : (s : String) → is_one_line s ≡ true → many no_feed at_end s ≡ true
unfolding many is_one_line
many-at_end String.[] h = refl
many-at_end (String.◌∷◌ c s) h = ground (arith, many-at_end s)

match_pieces-below : (s : String) → is_one_line s ≡ true → match_pieces (below ∷ []) s ≡ opens s
unfolding match_pieces is_one_line
match_pieces-below String.[] h = refl
match_pieces-below (String.◌∷◌ c String.[]) h = ground arith
match_pieces-below (String.◌∷◌ c (String.◌∷◌ d s)) h = ground (arith, many-at_end (String.◌∷◌ d s))

after-below :
    (d s : String)
    → is_one_line s ≡ true
    → after (match_pieces (below ∷ [])) (after_prefix d s) ≡ after opens (after_prefix d s)
unfolding after_prefix is_one_line
after-below String.[] s h = match_pieces-below s h
after-below (String.◌∷◌ c d) String.[] h = refl
after-below (String.◌∷◌ c d) (String.◌∷◌ x s) h = ground (arith, after-below d s)

-- `folder/**` matches the folder itself and all that is below it, and nothing else: for a folder
-- without wildcards, and a path on one line.
pub glob_matches-below :
    (folder f : String)
    → is_literal (posix folder) ≡ true
    → is_one_line (posix f) ≡ true
    → glob_matches (cat folder "/**") f
      ≡ (str_eq (posix f) (posix folder) || starts (posix f) (cat (posix folder) "/"))
unfolding glob_matches glob_to_regex
glob_matches-below folder f literal line =
    ap (λ p. match_pieces (rev_onto (glob_from [] p) []) (posix f)) (posix-cat folder "/**")
    ∙ ap (λ ps. match_pieces ps (posix f)) (glob_from-below [] (posix folder) literal)
    ∙ match_pieces-letters (posix folder) (posix f) (below ∷ [])
    ∙ after-below (posix folder) (posix f) line
    ∙ sym (opens-after_prefix (posix folder) (posix f))
