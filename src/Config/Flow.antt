-- ===== src/Config/Flow.antt =====
-- The scalars and the flow collections of the reader: `_split_flow`, `_scalar` and `_parse_flow`.
use saga_forge.Base.{
  ℕ, zero, suc, ◌+◌, ◌-◌, ◌*◌, Bool, true, false, not, ◌&&◌, ◌||◌, List, [], ◌∷◌, Char, code,
  String, Option, none, some, ltb, leb, ◌==◌, str_eq, elem, if◌then◌else◌,
}
use saga_forge.Text.{is, is_digit, zeros, cat, strip, join_with}
use saga_forge.Config.Values.{
  Value, null, bool, int, str, seq, map, Values, nil, cons, Fields, empty, put, Parsed, ok,
  malformed, out_of_fuel, ◌>>=◌,
}

-- The state of the loop of `_split_flow`. The depth is what was opened less what was closed.
pub record Scan : Type 0 where
  pub quote : Option ℕ
  pub opened : ℕ
  pub closed : ℕ

abbrev pub start : Scan
start = record { quote = none; opened = 0; closed = 0 }

abbrev is_quote : Char → Bool
is_quote c = is c 34 || is c 39

abbrev pub next_scan : Option ℕ → Char → Scan → Scan
next_scan (some q) c s = if is c q then record s { quote = none } else s
next_scan none c s =
    if is_quote c
    then record s { quote = some (code c) }
    else if is c b'[' || is c b'{'
    then record s { opened = suc s.opened }
    else if is c b']' || is c b'}'
    then record s { closed = suc s.closed }
    else s

-- A comma at the top level ends a piece.
abbrev pub is_cut : Option ℕ → Char → Scan → Bool
is_cut (some q) c s = false
is_cut none c s = is c b',' && s.opened == s.closed

abbrev pub push_char : Char → List String → List String
push_char c [] = String.◌∷◌ c String.[] ∷ []
push_char c (p ∷ ps) = String.◌∷◌ c p ∷ ps

abbrev pub piece_or_cut : Bool → Char → List String → List String
piece_or_cut true c ps = "" ∷ ps
piece_or_cut false c ps = push_char c ps

-- The pieces behind a point of the text: the first is the rest of the one that is open there.
unfoldable pub pieces_from : Scan → String → List String
pieces_from s String.[] = "" ∷ []
pieces_from s (String.◌∷◌ c t) =
    piece_or_cut (is_cut s.quote c s) c (pieces_from (next_scan s.quote c s) t)

-- The last piece is left out if it is blank.
abbrev pub drop_blank : List String → List String
drop_blank [] = []
drop_blank (p ∷ []) = if str_eq (strip p) "" then [] else p ∷ []
drop_blank (p ∷ q ∷ ps) = p ∷ drop_blank (q ∷ ps)

-- `_split_flow`
unfoldable pub split_flow : String → List String
unfolding pieces_from strip
split_flow s = drop_blank (pieces_from start s)

-- `s[:-1]`
unfoldable pub all_but_end : String → String
all_but_end String.[] = String.[]
all_but_end (String.◌∷◌ c String.[]) = String.[]
all_but_end (String.◌∷◌ c (String.◌∷◌ d s)) = String.◌∷◌ c (all_but_end (String.◌∷◌ d s))

abbrev pub but_first : String → String
but_first String.[] = String.[]
but_first (String.◌∷◌ c s) = s

-- `s[1:-1]`
abbrev pub inner : String → String
inner s = all_but_end (but_first s)

-- `s[-1] == c`
unfoldable pub ends_with : Char → String → Bool
ends_with c String.[] = false
ends_with c (String.◌∷◌ d String.[]) = code c == code d
ends_with c (String.◌∷◌ d (String.◌∷◌ e s)) = ends_with c (String.◌∷◌ e s)

-- `s[0] in "\"'" and s[-1] == s[0]`
abbrev pub is_quoted : String → Bool
is_quoted String.[] = false
is_quoted (String.◌∷◌ c s) = is_quote c && ends_with c (String.◌∷◌ c s)

-- `s.lstrip("-")`, with the number of dashes
abbrev count_dash : ℕ × String → ℕ × String
count_dash (n, t) = (suc n, t)

pub strip_dashes : String → ℕ × String
strip_dashes String.[] = (0, String.[])
strip_dashes (String.◌∷◌ c s) =
    let more = count_dash (strip_dashes s) in if is c b'-' then more else (0, String.◌∷◌ c s)

pub all_digits : String → Bool
unfolding is_digit
all_digits String.[] = true
all_digits (String.◌∷◌ c s) = is_digit c && all_digits s

digit_from : List ℕ → ℕ → ℕ
digit_from [] c = 0
digit_from (z ∷ zs) c = if leb z c && ltb c (z + 10) then c - z else digit_from zs c

pub number_from : ℕ → String → ℕ
unfolding digit_from
number_from n String.[] = n
number_from n (String.◌∷◌ c s) = number_from (n * 10 + digit_from zeros (code c)) s

-- `int(s)`: more than one dash is a `ValueError`.
abbrev pub to_int : ℕ × String → Parsed Value
to_int (zero, t) = ok (int false (number_from 0 t))
to_int (suc zero, t) = ok (int true (number_from 0 t))
to_int (suc (suc n), t) = malformed

abbrev pub is_int : ℕ × String → Bool
is_int (n, t) = not (str_eq t "") && all_digits t

abbrev pub is_null_word : String → Bool
is_null_word s = elem s ("null" ∷ "Null" ∷ "NULL" ∷ "~" ∷ [])

abbrev pub plain_scalar : String → Parsed Value
plain_scalar s =
    if is_int (strip_dashes s)
    then to_int (strip_dashes s)
    else if str_eq s "true"
    then ok (bool true)
    else if str_eq s "false"
    then ok (bool false)
    else if is_null_word s
    then ok null
    else ok (str s)

abbrev pub stripped_scalar : String → Parsed Value
stripped_scalar s =
    if str_eq s "" then ok null else if is_quoted s then ok (str (inner s)) else plain_scalar s

-- `_scalar`
unfoldable pub scalar : String → Parsed Value
unfolding strip all_but_end ends_with strip_dashes all_digits number_from
scalar s = stripped_scalar (strip s)

-- `piece.split(":", 1)`, if there is a colon
abbrev pub key_onto : Char → Option (String × String) → Option (String × String)
key_onto c none = none
key_onto c (some (k, v)) = some (String.◌∷◌ c k, v)

unfoldable pub split_colon : String → Option (String × String)
split_colon String.[] = none
split_colon (String.◌∷◌ c s) =
    let later = key_onto c (split_colon s) in if is c b':' then some (String.[], s) else later

abbrev pub parse_items : (String → Parsed Value) → List String → Parsed Values
parse_items parse [] = ok nil
parse_items parse (p ∷ ps) = do v ← parse p; vs ← parse_items parse ps; ok (cons v vs)

abbrev pub put_parsed : (String → Parsed Value) → Option (String × String) → Fields → Parsed Fields
put_parsed parse none d = malformed
put_parsed parse (some (k, v)) d = do w ← parse v; ok (put (strip k) w d)

abbrev pub parse_fields : (String → Parsed Value) → List String → Fields → Parsed Fields
parse_fields parse [] d = ok d
parse_fields parse (p ∷ ps) d = do e ← put_parsed parse (split_colon p) d; parse_fields parse ps e

abbrev pub is_between : Char → Char → String → Bool
is_between a b String.[] = false
is_between a b (String.◌∷◌ c s) = code c == code a && ends_with b (String.◌∷◌ c s)

-- `_parse_flow` of a stripped text, with the call for a piece
abbrev pub parse_stripped : (String → Parsed Value) → String → Parsed Value
parse_stripped parse s =
    if is_between "[" "]" s
    then (do vs ← parse_items parse (split_flow (strip (inner s))); ok (seq vs))
    else if is_between "{" "}" s
    then (do d ← parse_fields parse (split_flow (strip (inner s))) empty; ok (map d))
    else scalar s

-- `_parse_flow`. A piece is shorter than the text.
unfoldable pub parse_flow : ℕ → String → Parsed Value
unfolding split_flow scalar split_colon put strip all_but_end ends_with
parse_flow zero s = out_of_fuel
parse_flow (suc fuel) s = parse_stripped (parse_flow fuel) (strip s)

-- `f'"{i}"'`
abbrev pub quoted : String → String
quoted s = cat "\"" (cat s "\"")

abbrev pub quoted_all : List String → List String
quoted_all [] = []
quoted_all (s ∷ ss) = quoted s ∷ quoted_all ss

-- `_yaml_flow_list`
unfoldable pub yaml_flow_list : List String → String
yaml_flow_list items = cat "[" (cat (join_with ", " (quoted_all items)) "]")
