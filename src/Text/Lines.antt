-- ===== src/Text/Lines.antt =====
-- `str.splitlines`, with and without the line ends.
use saga_forge.Base.{
  Bool, ◌&&◌, ◌||◌, List, [], ◌∷◌, Char, code, String, leb, ◌==◌, if◌then◌else◌, map, str_eq,
}
use saga_forge.Text.Chars.{is, cat}

-- The characters at which `str.splitlines` splits.
unfoldable pub is_break : Char → Bool
is_break k =
    let c = code k in
    (leb 10 c && leb c 13) || (leb 28 c && leb c 30) || c == 0x85 || c == 0x2028 || c == 0x2029

-- A line and the line end behind it, which is empty for a last line that has none.
pub record Line : Type 0 where
  pub body : String
  pub ending : String

abbrev one : Char → String
one c = String.◌∷◌ c String.[]

-- One more character in front of the lines of a text.
abbrev pub grow : Char → List Line → List Line
grow c [] = record { body = one c; ending = "" } ∷ []
grow c (l ∷ ls) = record l { body = String.◌∷◌ c l.body } ∷ ls

-- A carriage return in front of the lines of a text: one line end with a line feed behind it.
abbrev pub return_onto : Char → List Line → List Line
return_onto c [] = record { body = ""; ending = one c } ∷ []
return_onto c (l ∷ ls) =
    if str_eq l.body "" && str_eq l.ending "\n"
    then record { body = ""; ending = String.◌∷◌ c l.ending } ∷ ls
    else record { body = ""; ending = one c } ∷ l ∷ ls

abbrev pub put_char : Char → List Line → List Line
put_char c ls =
    if is c 13
    then return_onto c ls
    else if is_break c
    then record { body = ""; ending = one c } ∷ ls
    else grow c ls

unfoldable pub lines : String → List Line
unfolding is_break
lines String.[] = []
lines (String.◌∷◌ c s) = put_char c (lines s)

-- `s.splitlines()`
abbrev pub splitlines : String → List String
splitlines s = map (λ l. l.body) (lines s)

abbrev pub whole : Line → String
whole l = cat l.body l.ending

-- `s.splitlines(keepends=True)`
abbrev pub splitlines_keep : String → List String
splitlines_keep s = map whole (lines s)
