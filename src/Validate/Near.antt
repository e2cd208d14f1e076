-- ===== src/Validate/Near.antt =====
-- `_words`, `_nearest_heading` and `_requirement_key` of `living_validate.py`.
use saga_forge.Base.{
  ℕ, zero, suc, ◌+◌, ◌*◌, Bool, not, ◌&&◌, ◌||◌, List, [], ◌∷◌, Char, code, String, Option, none,
  some, ltb, leb, if◌then◌else◌, length, keep, any, elem, str_eq, ◌==◌,
}
use saga_forge.Text.{is, strip, skip_spaces, after_folded}
use saga_forge.Resolver.{text_length}

-- What a character puts in front of the runs of `re.findall(r"[a-z0-9]+", heading.lower())`. The
-- long dotted I is lowered to an i and a dot above; all other characters that are lowered to one of
-- the class are the capitals and the Kelvin sign.
pub data Put : Type 0 where
  letter : Char → Put
  last_letter : Char → Put
  gap : Put

abbrev within : ℕ → ℕ → Char → Bool
within lo hi c = leb lo (code c) && leb (code c) hi

capitals : List (Char × Char)
capitals =
    ("A", "a")
    ∷ ("B", "b")
    ∷ ("C", "c")
    ∷ ("D", "d")
    ∷ ("E", "e")
    ∷ ("F", "f")
    ∷ ("G", "g")
    ∷ ("H", "h")
    ∷ ("I", "i")
    ∷ ("J", "j")
    ∷ ("K", "k")
    ∷ ("L", "l")
    ∷ ("M", "m")
    ∷ ("N", "n")
    ∷ ("O", "o")
    ∷ ("P", "p")
    ∷ ("Q", "q")
    ∷ ("R", "r")
    ∷ ("S", "s")
    ∷ ("T", "t")
    ∷ ("U", "u")
    ∷ ("V", "v")
    ∷ ("W", "w")
    ∷ ("X", "x")
    ∷ ("Y", "y")
    ∷ ("Z", "z")
    ∷ []

abbrev lowered : List (Char × Char) → Char → Put
lowered [] c = gap
lowered ((upper, lower) ∷ ls) c = if code upper == code c then letter lower else lowered ls c

pub put_of : Char → Put
unfolding capitals
put_of c =
    if within 97 122 c || within 48 57 c
    then letter c
    else if is c 0x130
    then last_letter "i"
    else if is c 0x212a
    then letter "k"
    else lowered capitals c

abbrev onto_first : Char → List String → List String
onto_first c [] = String.◌∷◌ c String.[] ∷ []
onto_first c (r ∷ rs) = String.◌∷◌ c r ∷ rs

abbrev put_run : Put → List String → List String
put_run (letter c) rs = onto_first c rs
put_run (last_letter c) rs = onto_first c ("" ∷ rs)
put_run gap rs = "" ∷ rs

-- The runs, and empty texts between gaps
pub runs : String → List String
unfolding put_of
runs String.[] = "" ∷ []
runs (String.◌∷◌ c s) = put_run (put_of c) (runs s)

abbrev stop_words : List String
stop_words =
    "a" ∷ "an" ∷ "the" ∷ "is" ∷ "are" ∷ "to" ∷ "of" ∷ "and" ∷ "or" ∷ "in" ∷ "on" ∷ "for" ∷ "with"
    ∷ "its" ∷ "it" ∷ "their" ∷ "this" ∷ "that" ∷ []

-- `re.sub(r"(ing|ed|es|e|s|d)$", "", w)`: the first suffix from the left
pub without_suffix : String → String
without_suffix String.[] = String.[]
without_suffix (String.◌∷◌ c s) =
    let more = String.◌∷◌ c (without_suffix s) in
    if elem (String.◌∷◌ c s) ("ing" ∷ "ed" ∷ "es" ∷ "e" ∷ "s" ∷ "d" ∷ []) then "" else more

abbrev stem : String → String
stem w = if ltb 3 (text_length w) then without_suffix w else w

abbrev stems : List String → List String
stems [] = []
stems (w ∷ ws) = stem w ∷ stems ws

-- A set, as a list without repeats
abbrev set_of : List String → List String
set_of [] = []
set_of (w ∷ ws) = if elem w (set_of ws) then set_of ws else w ∷ set_of ws

-- `_words`
unfoldable pub words_of : String → List String
unfolding runs without_suffix text_length
words_of heading =
    set_of (stems (keep (λ w. not (str_eq w "") && not (elem w stop_words)) (runs heading)))

abbrev shared : List String → List String → ℕ
shared ws vs = length (keep (λ w. elem w vs) ws)

-- `overlap >= 0.6`, or at least three words all of which the other has: the shared words times five
-- against three times those of either.
abbrev pub is_near : List String → List String → Bool
is_near mine theirs =
    let both = shared mine theirs in
    leb (3 * (length mine + length theirs)) (8 * both)
    || ((leb 3 (length mine) && leb 3 (length theirs))
        && (both == length mine || both == length theirs))

-- `_nearest_heading`: whether one is found. Which of several is that of the order of a set.
unfoldable pub has_near : String → List String → Bool
unfolding words_of
has_near heading present =
    not (length (words_of heading) == 0)
    && any
        (λ other.
          not (str_eq other heading)
          && not (length (words_of other) == 0)
          && is_near (words_of heading) (words_of other))
        present

abbrev after_tag : String → Option String
after_tag s = after_folded "[inferred]" (skip_spaces s)

-- `_INFERRED_TAG.sub(" ", heading)`. The fuel counts characters.
pub without_tags : ℕ → String → String
unfolding skip_spaces after_folded
without_tags zero s = s
without_tags (suc n) String.[] = String.[]
without_tags (suc n) (String.◌∷◌ c s) = elim (after_tag (String.◌∷◌ c s)) [
  | none ↦ String.◌∷◌ c (without_tags n s)
  | some rest ↦ String.◌∷◌ " " (without_tags n (skip_spaces rest))
]

-- `_requirement_key`
unfoldable pub requirement_key : String → String
unfolding without_tags text_length strip skip_spaces
requirement_key heading = strip (without_tags (text_length heading) heading)
