-- ===== src/Config/LineRules.antt =====
-- The rules of the reader on one line: comments, keys, and the YAML that is not supported.
use saga_forge.Base.{
  ℕ, zero, suc, Bool, true, false, not, ◌&&◌, ◌||◌, List, [], ◌∷◌, ◌++◌, Char, code, String, Option,
  none, some, leb, elem, any, if◌then◌else◌, str_eq,
}
use saga_forge.Text.{is, is_space, strip, rstrip, starts, after_prefix}
use saga_forge.Resolver.{text_length}
use saga_forge.Config.Flow.{inner, is_quoted, all_but_end, ends_with}

abbrev pub quotes : Char → Bool
quotes c = is c 34 || is c 39

abbrev onto_some : Char → Option String → Option String
onto_some c none = none
onto_some c (some s) = some (String.◌∷◌ c s)

abbrev next_quote : Option ℕ → Char → Option ℕ
next_quote (some q) c = if is c q then none else some q
next_quote none c = if quotes c then some (code c) else none

-- A comment begins here: outside of quotes, at the start or behind a space or a tab.
abbrev is_comment : Option ℕ → Bool → Char → Bool
is_comment (some q) lead c = false
is_comment none lead c = is c b'#' && lead

-- The text before a comment, if there is one
before_comment : Option ℕ → Bool → String → Option String
before_comment q lead String.[] = none
before_comment q lead (String.◌∷◌ c s) =
    let later = onto_some c (before_comment (next_quote q c) (is c 32 || is c 9) s) in
    if is_comment q lead c then some String.[] else later

abbrev or_line : Option String → String → String
or_line none line = line
or_line (some t) line = rstrip t

-- `_strip_comment`
unfoldable pub strip_comment : String → String
unfolding before_comment rstrip
strip_comment line = or_line (before_comment none true line) line

abbrev has_two : String → Bool
has_two (String.◌∷◌ _ (String.◌∷◌ _ _)) = true
has_two _ = false

-- `_unquote`
unfoldable pub unquote : String → String
unfolding all_but_end ends_with
unquote t = if has_two t && is_quoted t then inner t else t

-- The text up to a closing quote, and what follows it
abbrev onto_pair : Char → Option (String × String) → Option (String × String)
onto_pair c none = none
onto_pair c (some (s, t)) = some (String.◌∷◌ c s, t)

unfoldable pub close_quote : ℕ → String → Option (String × String)
close_quote q String.[] = none
close_quote q (String.◌∷◌ c s) =
    let later = onto_pair c (close_quote q s) in if is c q then some (String.[], s) else later

-- The colon that ends a key stands at the end or before a space.
abbrev ends_key : String → Bool
ends_key String.[] = true
ends_key (String.◌∷◌ c _) = is c 32

key_colon : String → Option (String × String)
key_colon String.[] = none
key_colon (String.◌∷◌ c s) =
    let later = onto_pair c (key_colon s) in
    if is c b':' && ends_key s then some (String.[], s) else later

abbrev plain_key : String → Option (String × String) → String × String
plain_key body none = (unquote body, "")
plain_key body (some (k, v)) = (unquote (strip k), strip v)

abbrev behind_colon : String → String → Option String → String × String
behind_colon body key none = plain_key body (key_colon body)
behind_colon body key (some v) =
    if ends_key v then (key, strip v) else plain_key body (key_colon body)

abbrev quoted_key : String → Option (String × String) → String × String
quoted_key body none = plain_key body (key_colon body)
quoted_key body (some (key, rest)) = behind_colon body key (after_prefix ":" rest)

abbrev split_nonempty : String → Char → String → String × String
split_nonempty body c s =
    if quotes c then quoted_key body (close_quote (code c) s) else plain_key body (key_colon body)

-- `_split_key` of a text that is not empty
unfoldable pub split_key : String → String × String
unfolding unquote close_quote key_colon strip after_prefix
split_key String.[] = ("", "")
split_key (String.◌∷◌ c s) = split_nonempty (String.◌∷◌ c s) c s

-- `_QUOTED_SPAN.sub(" ", s)`; the fuel counts characters.
unquoted : ℕ → String → String
unfolding close_quote
unquoted zero s = s
unquoted (suc fuel) String.[] = String.[]
unquoted (suc fuel) (String.◌∷◌ c s) = elim (if quotes c then close_quote (code c) s else none) [
  | none ↦ String.◌∷◌ c (unquoted fuel s)
  | some (span, rest) ↦ String.◌∷◌ " " (unquoted fuel rest)
]

abbrev within : ℕ → ℕ → Char → Bool
within lo hi c = leb lo (code c) && leb (code c) hi

-- `[A-Za-z0-9_.+/-]`
abbrev is_name_char : Char → Bool
is_name_char c =
    within 65 90 c
    || within 97 122 c
    || within 48 57 c
    || is c b'_'
    || is c b'.'
    || is c b'+'
    || is c b'/'
    || is c b'-'

abbrev name_onto : Char → String × String → String × String
name_onto c (s, t) = (String.◌∷◌ c s, t)

name_run : String → String × String
name_run String.[] = (String.[], String.[])
name_run (String.◌∷◌ c s) =
    let more = name_onto c (name_run s) in
    if is_name_char c then more else (String.[], String.◌∷◌ c s)

abbrev may_follow : String → Bool
may_follow String.[] = true
may_follow (String.◌∷◌ c _) = is_space c || is c b',' || is c b']' || is c b'}'

abbrev may_precede : Char → Bool
may_precede c = is_space c || is c b',' || is c b'[' || is c b'{'

abbrev found_name : String × String → List String → List String
found_name (name, rest) later =
    if not (str_eq name "") && may_follow rest then name ∷ later else later

-- The names behind a mark that starts a token. Inside of a name no other one starts.
marked_names : ℕ → Bool → String → List String
unfolding name_run is_space
marked_names mark lead String.[] = []
marked_names mark lead (String.◌∷◌ c s) =
    let later = marked_names mark (may_precede c) s in
    if lead && is c mark then found_name (name_run s) later else later

abbrev bare_line : String → String
bare_line s = unquoted (text_length s) s

abbrev anchors_in : String → List String
anchors_in line = marked_names b'&' true (bare_line line)

-- `_anchor_names`
unfoldable pub anchor_names : List String → List String
unfolding marked_names unquoted text_length
anchor_names [] = []
anchor_names (l ∷ ls) = anchors_in l ++ anchor_names ls

-- `while body.startswith("- "): body = body[2:].strip()`
drop_dashes : ℕ → String → String
unfolding after_prefix strip
drop_dashes zero body = body
drop_dashes (suc fuel) body = elim (after_prefix "- " body) [
  | none ↦ body
  | some rest ↦ drop_dashes fuel (strip rest)
]

-- `[|>][-+0-9]*`
all_chomps : String → Bool
all_chomps String.[] = true
all_chomps (String.◌∷◌ c s) = (is c b'-' || is c b'+' || within 48 57 c) && all_chomps s

abbrev is_block_scalar : String → Bool
is_block_scalar String.[] = false
is_block_scalar (String.◌∷◌ c s) = (is c b'|' || is c b'>') && all_chomps s

abbrev is_nil : List String → Bool
is_nil [] = true
is_nil (_ ∷ _) = false

drop_blanks : String → String
drop_blanks String.[] = String.[]
drop_blanks (String.◌∷◌ c s) = let rest = drop_blanks s in if is c 32 then rest else String.◌∷◌ c s

abbrev body_problem : String → List String → Bool
body_problem body anchors =
    starts body "---"
    || starts body "..."
    || not (is_nil (anchors_in body))
    || any (λ a. elem a anchors) (marked_names b'*' true (bare_line body))
    || is_block_scalar ((split_key body).1)

-- `_unsupported` names a problem.
unfoldable pub unsupported : String → List String → Bool
unfolding drop_dashes drop_blanks marked_names unquoted text_length split_key all_chomps strip
    after_prefix
unsupported line anchors =
    starts (drop_blanks line) "\t"
    || body_problem (drop_dashes (text_length line) (strip line)) anchors
