-- ===== src/Validate/Patterns.antt =====
-- The patterns of `living_validate.py`, on one line. `is_word` is the class `\w` of the interpreter:
-- letters, digits and the underscore.
use saga_forge.Base.{
  ℕ, suc, Bool, true, false, not, ◌&&◌, ◌||◌, List, [], ◌∷◌, Char, String, Option, none, some,
  if◌then◌else◌, is_some, str_eq,
}
use saga_forge.Text.{
  is, is_space, is_digit, skip_spaces, after_prefix, after_folded, after_spaces, is_blank, and_then,
}
use saga_forge.Deltas.{name_part, before_dashes, nonempty}
use saga_forge.Resolver.{title_of, last_char}

-- `_SECTION_RE.match(line)`
unfoldable pub is_section_line : String → Bool
unfolding last_char after_prefix after_spaces
is_section_line line =
    is_some (and_then (after_prefix "##" line) (λ t. and_then (after_spaces t) (title_of t)))

abbrev has_text : String → Option String
has_text s = if str_eq s "" then none else some s

-- `_SCENARIO_RE.match(line)`: at least one character is behind the colon.
unfoldable pub is_scenario_line : String → Bool
unfolding after_prefix after_spaces after_folded skip_spaces
is_scenario_line line = is_some (
    and_then (and_then (after_prefix "####" line) after_spaces) (λ s.
      and_then (after_folded "scenario" s)
        (λ t. and_then (after_prefix ":" (skip_spaces t)) has_text)))

abbrev blank_behind : Option String → Bool
blank_behind none = false
blank_behind (some rest) = is_blank rest

abbrev named_line : String → String → Option String
named_line name rest =
    if blank_behind (after_prefix "-->" (skip_spaces rest))
    then nonempty (some name)
    else if blank_behind (after_prefix ">" rest)
    then nonempty (before_dashes name)
    else none

abbrev name_of_line : String → Option String
name_of_line s = let (name, rest) = name_part s in named_line name rest

-- `_CAP_MARKER_RE.match(line)`, its group
unfoldable pub marker_line_name : String → Option String
unfolding name_part before_dashes after_prefix after_folded skip_spaces
marker_line_name line =
    and_then (after_prefix "<!--" (skip_spaces line)) (λ t.
      and_then (after_folded "capability:" (skip_spaces t)) (λ u. name_of_line (skip_spaces u)))

-- `\d+[.)]` behind a digit at least
abbrev number_end : Char → String → Option String
number_end c s = if is c b'.' || is c b')' then some s else none

pub after_digits : String → Option String
unfolding is_digit
after_digits String.[] = none
after_digits (String.◌∷◌ c s) =
    let more = after_digits s in if is_digit c then more else number_end c s

abbrev is_bullet : Char → Bool
is_bullet c = is c b'-' || is c b'*' || is c b'+'

abbrev bullet_at : String → Option String
bullet_at String.[] = none
bullet_at (String.◌∷◌ c s) =
    if is_bullet c then some s else if is_digit c then after_digits s else none

abbrev drop_star : String → String
drop_star String.[] = String.[]
drop_star (String.◌∷◌ c s) = if is c b'*' then s else String.◌∷◌ c s

-- `_BULLET` and `\*{0,2}`
abbrev after_bullet : String → Option String
after_bullet line =
    and_then (bullet_at (skip_spaces line)) (λ s. some (drop_star (drop_star (skip_spaces s))))

module _ (is_word : Char → Bool) where
  -- What follows a word begins with no character of a word.
  abbrev pub word_ends : String → Bool
  word_ends String.[] = true
  word_ends (String.◌∷◌ c s) = not (is_word c)

  abbrev word_at : String → Option String → Bool
  word_at word none = false
  word_at word (some s) = elim (after_folded word s) [ none ↦ false | some rest ↦ word_ends rest ]

  -- `_WHEN_RE.match(line)` and `_THEN_RE.match(line)`: behind the word, `\*{0,2}\b` holds at once
  -- where no character of a word follows, and nowhere else.
  unfoldable pub is_when_line : String → Bool
  unfolding after_folded skip_spaces after_digits is_digit
  is_when_line line = word_at "when" (after_bullet line) || word_at "given" (after_bullet line)

  unfoldable pub is_then_line : String → Bool
  unfolding after_folded skip_spaces after_digits is_digit
  is_then_line line = word_at "then" (after_bullet line)

  abbrev whole_word : Option String → Bool
  whole_word none = false
  whole_word (some rest) = word_ends rest

  abbrev pub normative_at : String → Bool
  normative_at s =
      whole_word (after_prefix "SHALL" s)
      || whole_word (after_prefix "MUST" s)
      || whole_word (after_prefix "SHOULD" s)

  -- `_NORMATIVE_RE.search`, from a point with a character of a word before it, or not
  unfoldable pub normative_from : Bool → String → Bool
  unfolding after_prefix
  normative_from in_word String.[] = false
  normative_from in_word (String.◌∷◌ c s) =
      (not in_word && normative_at (String.◌∷◌ c s)) || normative_from (is_word c) s

abbrev pub char_onto : Char → List String → List String
char_onto c [] = String.◌∷◌ c String.[] ∷ []
char_onto c (p ∷ ps) = String.◌∷◌ c p ∷ ps

abbrev ends_sentence : Char → Bool
ends_sentence c = is c b'.' || is c b'!' || is c b'?'

-- Where a walk through the text is: behind the end of a sentence, in the spaces that follow it, or
-- elsewhere.
pub data Spot : Type 0 where
  behind_end between in_sentence : Spot

abbrev spot_behind : Char → Spot
spot_behind c = if ends_sentence c then behind_end else in_sentence

abbrev sentence_step : Spot → Bool → Char → (Spot → List String) → List String
sentence_step behind_end true c more = "" ∷ more between
sentence_step between true c more = more between
sentence_step _ _ c more = char_onto c (more (spot_behind c))

-- `_SENTENCE_RE.split`
unfoldable pub sentences_from : Spot → String → List String
unfolding is_space
sentences_from spot String.[] = "" ∷ []
sentences_from spot (String.◌∷◌ c s) =
    sentence_step spot (is_space c) c (λ next. sentences_from next s)

abbrev count_word : Bool → Bool → ℕ → ℕ
count_word false false n = suc n
count_word _ _ n = n

-- `len(line.split())`, inside of a word or not
unfoldable pub words_from : Bool → String → ℕ
unfolding is_space
words_from in_word String.[] = 0
words_from in_word (String.◌∷◌ c s) =
    count_word (is_space c) in_word (words_from (not (is_space c)) s)
