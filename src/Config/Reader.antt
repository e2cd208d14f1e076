-- ===== src/Config/Reader.antt =====
-- `load_yaml`: the blocks of the reader, and the two files of a project that it reads.
use saga_forge.Base.{
  ℕ, zero, suc, ◌+◌, ◌*◌, Bool, true, false, not, ◌&&◌, ◌||◌, List, [], ◌∷◌, Char, code, String,
  Option, none, some, ltb, leb, ◌==◌, any, length, if◌then◌else◌, str_eq, is_some,
}
use saga_forge.Text.{is, is_space, cat, strip, skip_spaces, starts, after_prefix, join_with}
use saga_forge.Resolver.{text_length}
use saga_forge.Config.Values.{
  Value, null, seq, map, Values, nil, cons, Fields, empty, put, Parsed, ok, malformed, out_of_fuel,
  ◌>>=◌,
}
use saga_forge.Config.Flow.{scalar, parse_flow, split_colon}
use saga_forge.Config.LineRules.{strip_comment, split_key, unsupported, anchor_names}

-- `text.split("\n")`
abbrev cut : Bool → Char → List String → List String
cut true c ls = "" ∷ ls
cut false c [] = String.◌∷◌ c String.[] ∷ []
cut false c (l ∷ ls) = String.◌∷◌ c l ∷ ls

unfoldable pub split_feeds : String → List String
split_feeds String.[] = "" ∷ []
split_feeds (String.◌∷◌ c s) = cut (is c 10) c (split_feeds s)

-- `_indent`
unfoldable pub indent : String → ℕ
indent String.[] = 0
indent (String.◌∷◌ c s) = let more = suc (indent s) in if is c 32 then more else 0

abbrev pub is_item : String → Bool
is_item line = starts (skip_spaces line) "- "

abbrev or_empty : Option String → String
or_empty none = ""
or_empty (some s) = s

-- `line.lstrip()[2:].strip()` of an item
abbrev pub item_rest : String → String
item_rest line = strip (or_empty (after_prefix "- " (skip_spaces line)))

abbrev pub is_flow : String → Bool
is_flow s = starts s "{" || starts s "["

abbrev spaced_colon : Option (String × String) → Bool
spaced_colon none = false
spaced_colon (some (k, v)) = str_eq v "" || starts v " "

-- `_starts_block_map`: what follows the first colon
abbrev pub starts_block_map : String → Bool
starts_block_map rest = spaced_colon (split_colon rest)

unfoldable pub spaces : ℕ → String
spaces zero = ""
spaces (suc n) = String.◌∷◌ " " (spaces n)

abbrev within : ℕ → ℕ → Char → Bool
within lo hi c = leb lo (code c) && leb (code c) hi

-- `[A-Za-z0-9_.\"'-]`
abbrev is_key_char : Char → Bool
is_key_char c =
    within 65 90 c
    || within 97 122 c
    || within 48 57 c
    || is c b'_'
    || is c b'.'
    || is c 34
    || is c 39
    || is c b'-'

key_end : String → String
key_end String.[] = String.[]
key_end (String.◌∷◌ c s) = let more = key_end s in if is_key_char c then more else String.◌∷◌ c s

abbrev begins_key_char : String → Bool
begins_key_char String.[] = false
begins_key_char (String.◌∷◌ c _) = is_key_char c

abbrev stops : Option String → Bool
stops none = false
stops (some String.[]) = true
stops (some (String.◌∷◌ c _)) = is_space c

-- `_CONTINUATION_STOP.match(rest)`
abbrev opens_key : String → Bool
opens_key rest = begins_key_char rest && stops (after_prefix ":" (key_end rest))

abbrev pub text_onto : String → List String × List String → List String × List String
text_onto t (ts, ls) = (t ∷ ts, ls)

-- The lines that `_join_wrapped` absorbs, and the others
unfoldable pub wrapped : ℕ → List String → List String × List String
unfolding key_end indent after_prefix strip is_space
wrapped ind [] = ([], [])
wrapped ind (line ∷ ls) =
    let more = text_onto (strip line) (wrapped ind ls) in
    if leb (indent line) ind || starts (strip line) "- " || opens_key (strip line)
    then ([], line ∷ ls)
    else more

-- What a parse leaves: a value and the lines behind it
abbrev pub Left : Type 0 → Type 0
Left A = Parsed (A × List String)

abbrev pub joined : String → List String × List String → Left Value
joined val (parts, ls) = do v ← scalar (join_with " " (val ∷ parts)); ok (v, ls)

abbrev pub flow : String → List String → Left Value
flow s ls = do v ← parse_flow (suc (text_length s)) s; ok (v, ls)

abbrev pub plain : String → List String → Left Value
plain s ls = do v ← scalar s; ok (v, ls)

abbrev pub as_seq : Left Values → Left Value
as_seq r = do (vs, ls) ← r; ok (seq vs, ls)

abbrev pub next_is_item : ℕ → List String → Bool
next_is_item ind [] = false
next_is_item ind (line ∷ ls) = indent line == ind && is_item line

-- The value of an item, with the two calls for the lines below it
abbrev pub item_value : String → List String → Left Value → Left Value → Left Value
item_value rest ls entry block =
    if is_flow rest
    then flow rest ls
    else if starts_block_map rest
    then entry
    else if str_eq rest ""
    then block
    else plain rest ls

-- The value of a key, with the two calls for the lines below it
abbrev pub key_value : String → ℕ → List String → Left Value → Left Value → Left Value
key_value val ind ls items block =
    if str_eq val ""
    then (if next_is_item ind ls then items else block)
    else if is_flow val
    then flow val ls
    else joined val (wrapped ind ls)

unfoldable mutual
  unfolding wrapped parse_flow scalar split_key split_colon indent spaces text_length strip
      after_prefix put

  -- `parse_block`
  pub parse_block : ℕ → ℕ → List String → Left Value
  parse_block zero low ls = out_of_fuel
  parse_block (suc fuel) low [] = ok (null, [])
  parse_block (suc fuel) low (line ∷ ls) =
      let items = as_seq (parse_seq fuel (indent line) (line ∷ ls)) in
      let keys = parse_map fuel (indent line) empty (line ∷ ls) in
      if ltb (indent line) low then ok (null, line ∷ ls) else if is_item line then items else keys

  -- `_parse_seq`
  pub parse_seq : ℕ → ℕ → List String → Left Values
  parse_seq zero ind ls = out_of_fuel
  parse_seq (suc fuel) ind [] = ok (nil, [])
  parse_seq (suc fuel) ind (line ∷ ls) =
      let rest = item_rest line in
      let entry = parse_map fuel (ind + 2) empty (cat (spaces (ind + 2)) rest ∷ ls) in
      let block = parse_block fuel (ind + 1) ls in
      let items = (do
        (v, left) ← item_value rest ls entry block
        (vs, left') ← parse_seq fuel ind left
        ok (cons v vs, left')) in
      if indent line == ind && is_item line then items else ok (nil, line ∷ ls)

  -- `_parse_map`
  pub parse_map : ℕ → ℕ → Fields → List String → Left Value
  parse_map zero ind out ls = out_of_fuel
  parse_map (suc fuel) ind out [] = ok (map out, [])
  parse_map (suc fuel) ind out (line ∷ ls) =
      let (key, val) = split_key (strip line) in
      let items = as_seq (parse_seq fuel ind ls) in
      let block = parse_block fuel (ind + 1) ls in
      let keys = (do
        (v, left) ← key_value val ind ls items block
        parse_map fuel ind (put key v out) left) in
      if not (indent line == ind) || is_item line
      then ok (map out, line ∷ ls)
      else if is_some (split_colon (strip line))
      then keys
      else malformed

abbrev pub comments_off : List String → List String
comments_off [] = []
comments_off (l ∷ ls) = strip_comment l ∷ comments_off ls

abbrev pub not_blank : List String → List String
not_blank [] = []
not_blank (l ∷ ls) = if str_eq (strip l) "" then not_blank ls else l ∷ not_blank ls

-- No line is left, and nothing at all is an empty dict.
abbrev pub whole : Value × List String → Parsed Value
whole (null, []) = ok (map empty)
whole (v, []) = ok v
whole (v, _ ∷ _) = malformed

abbrev pub parse_lines : List String → Parsed Value
parse_lines ls = do r ← parse_block (3 * length ls + 3) 0 ls; whole r

-- `load_yaml`
unfoldable pub load_yaml : String → Parsed Value
unfolding split_feeds strip_comment anchor_names unsupported parse_block strip
load_yaml text =
    let ls = comments_off (split_feeds text) in
    if any (λ l. unsupported l (anchor_names ls)) (not_blank ls)
    then malformed
    else parse_lines (not_blank ls)
