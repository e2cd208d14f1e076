-- ===== src/Text/Paths.antt =====
-- `os.path` on POSIX, `split("/")`, `endswith`, and `str` of a number.
use Prim.Native.String.{compare as compare_text}
use Prim.Native.Nat.{◌%◌, ◌/◌, Ordering}
use saga_forge.Base.{
  ℕ, zero, suc, Bool, true, false, not, ◌||◌, List, [], ◌∷◌, Char, String, Option, none, some, ltb,
  ◌==◌, if◌then◌else◌, str_eq,
}
use saga_forge.Text.Chars.{is, cat, join_with, starts}

-- `s < t`
abbrev pub str_lt : String → String → Bool
str_lt s t = elim (compare_text s t) [ Ordering.lt ↦ true | _ ↦ false ]

abbrev cut : Bool → Char → List String → List String
cut true c parts = "" ∷ parts
cut false c [] = String.◌∷◌ c String.[] ∷ []
cut false c (p ∷ parts) = String.◌∷◌ c p ∷ parts

-- `path.split("/")`
unfoldable pub split_slashes : String → List String
split_slashes String.[] = "" ∷ []
split_slashes (String.◌∷◌ c s) = cut (is c b'/') c (split_slashes s)

-- `parts[:-1]` and `parts[-1]`
abbrev pub all_but_last : List String → List String
all_but_last [] = []
all_but_last (p ∷ []) = []
all_but_last (p ∷ q ∷ ps) = p ∷ all_but_last (q ∷ ps)

abbrev pub last_part : List String → String
last_part [] = ""
last_part (p ∷ []) = p
last_part (p ∷ q ∷ ps) = last_part (q ∷ ps)

abbrev onto_text : Char → Option String → Option String
onto_text c none = none
onto_text c (some s) = some (String.◌∷◌ c s)

-- `s` without the suffix, if it ends with it.
unfoldable pub before_suffix : String → String → Option String
before_suffix suffix String.[] = if str_eq suffix "" then some "" else none
before_suffix suffix (String.◌∷◌ c s) =
    let later = onto_text c (before_suffix suffix s) in
    if str_eq (String.◌∷◌ c s) suffix then some "" else later

abbrev pub ends : String → String → Bool
ends s suffix = elim (before_suffix suffix s) [ none ↦ false | some _ ↦ true ]

-- One component of `normpath`; `out` is in reverse, and `rooted` says that the path is absolute.
abbrev norm_up : Bool → List String → List String
norm_up rooted [] = if rooted then [] else ".." ∷ []
norm_up rooted (p ∷ out) = if str_eq p ".." then ".." ∷ p ∷ out else out

abbrev norm_part : Bool → String → List String → List String
norm_part rooted p out =
    if str_eq p "" || str_eq p "."
    then out
    else if str_eq p ".."
    then norm_up rooted out
    else p ∷ out

norm_parts : Bool → List String → List String → List String
norm_parts rooted [] out = out
norm_parts rooted (p ∷ ps) out = norm_parts rooted ps (norm_part rooted p out)

abbrev rev_texts : List String → List String → List String
rev_texts [] out = out
rev_texts (p ∷ ps) out = rev_texts ps (p ∷ out)

-- The slashes at the head that stay: two if there are just two, else one.
abbrev root_of : String → String
root_of s =
    if starts s "///" then "/" else if starts s "//" then "//" else if starts s "/" then "/" else ""

abbrev or_dot : String → String
or_dot s = if str_eq s "" then "." else s

-- `os.path.normpath`
unfoldable pub normpath : String → String
unfolding norm_parts split_slashes
normpath s =
    let root = root_of s in
    or_dot (
      cat root
        (join_with "/" (rev_texts (norm_parts (not (str_eq root "")) (split_slashes s) []) [])))

abbrev push_unless_slash : Char → String → String
push_unless_slash c String.[] = if is c b'/' then String.[] else String.◌∷◌ c String.[]
push_unless_slash c s = String.◌∷◌ c s

-- `s.rstrip("/")`
unfoldable pub rstrip_slashes : String → String
rstrip_slashes String.[] = String.[]
rstrip_slashes (String.◌∷◌ c s) = push_unless_slash c (rstrip_slashes s)

-- `path[: path.rfind("/") + 1]`
abbrev head_of : List String → String
head_of (p ∷ q ∷ ps) = cat (join_with "/" (all_but_last (p ∷ q ∷ ps))) "/"
head_of _ = ""

abbrev or_all : String → String → String
or_all head stripped = if str_eq stripped "" then head else stripped

-- `os.path.dirname`: a head of slashes only is kept.
unfoldable pub dirname : String → String
unfolding split_slashes rstrip_slashes
dirname s = let head = head_of (split_slashes s) in or_all head (rstrip_slashes head)

-- `str(n)`, by fuel: there are at most as many digits as the number says.
abbrev pub digit : ℕ → Char
digit n =
    if n == 0
    then "0"
    else if n == 1
    then "1"
    else if n == 2
    then "2"
    else if n == 3
    then "3"
    else if n == 4
    then "4"
    else if n == 5
    then "5"
    else if n == 6
    then "6"
    else if n == 7
    then "7"
    else if n == 8
    then "8"
    else "9"

unfoldable pub numeral_onto : ℕ → ℕ → String → String
numeral_onto zero n out = out
numeral_onto (suc fuel) n out =
    let more = numeral_onto fuel (n / 10) (String.◌∷◌ (digit (n % 10)) out) in
    if ltb n 10 then String.◌∷◌ (digit n) out else more

unfoldable pub numeral : ℕ → String
unfolding numeral_onto
numeral n = numeral_onto (suc n) n ""
