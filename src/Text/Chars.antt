-- ===== src/Text/Chars.antt =====
-- Python's character classes, by code point, and the operations on a text that walk it once.
use Prim.Native.String
use saga_forge.Base.{
  ℕ, ◌+◌, Bool, true, false, ◌&&◌, ◌||◌, List, [], ◌∷◌, Char, code, String, ltb, leb, ◌==◌,
  if◌then◌else◌, any, Option, none, some,
}

abbrev within : ℕ → ℕ → ℕ → Bool
within lo hi c = leb lo c && leb c hi

-- `str.isspace`, which is also `\s`.
unfoldable pub is_space : Char → Bool
is_space k =
    let c = code k in
    within 9 13 c
    || within 28 32 c
    || c == 0x85
    || c == 0xa0
    || c == 0x1680
    || within 0x2000 0x200a c
    || within 0x2028 0x2029 c
    || c == 0x202f
    || c == 0x205f
    || c == 0x3000

-- The zeros of the decimal digits of Unicode: each begins a run of ten.
abbrev pub zeros : List ℕ
zeros =
    0x30 ∷ 0x660 ∷ 0x6f0 ∷ 0x7c0 ∷ 0x966 ∷ 0x9e6 ∷ 0xa66 ∷ 0xae6 ∷ 0xb66 ∷ 0xbe6 ∷ 0xc66 ∷ 0xce6
    ∷ 0xd66 ∷ 0xde6 ∷ 0xe50 ∷ 0xed0 ∷ 0xf20 ∷ 0x1040 ∷ 0x1090 ∷ 0x17e0 ∷ 0x1810 ∷ 0x1946 ∷ 0x19d0
    ∷ 0x1a80 ∷ 0x1a90 ∷ 0x1b50 ∷ 0x1bb0 ∷ 0x1c40 ∷ 0x1c50 ∷ 0xa620 ∷ 0xa8d0 ∷ 0xa900 ∷ 0xa9d0
    ∷ 0xa9f0 ∷ 0xaa50 ∷ 0xabf0 ∷ 0xff10 ∷ 0x104a0 ∷ 0x10d30 ∷ 0x11066 ∷ 0x110f0 ∷ 0x11136 ∷ 0x111d0
    ∷ 0x112f0 ∷ 0x11450 ∷ 0x114d0 ∷ 0x11650 ∷ 0x116c0 ∷ 0x11730 ∷ 0x118e0 ∷ 0x11950 ∷ 0x11c50
    ∷ 0x11d50 ∷ 0x11da0 ∷ 0x16a60 ∷ 0x16ac0 ∷ 0x16b50 ∷ 0x1d7ce ∷ 0x1d7d8 ∷ 0x1d7e2 ∷ 0x1d7ec
    ∷ 0x1d7f6 ∷ 0x1e140 ∷ 0x1e2f0 ∷ 0x1e950 ∷ 0x1fbf0 ∷ []

-- `\d` in a pattern over `str`.
unfoldable pub is_digit : Char → Bool
is_digit k = any (λ z. leb z (code k) && ltb (code k) (z + 10)) zeros

-- The character is the one of the code point, as in `is c b'#'`.
abbrev pub is : Char → ℕ → Bool
is k n = code k == n

abbrev pub cat : String → String → String
cat s t = String.◌++◌ s t

-- `"".join(parts)`
abbrev pub join : List String → String
join [] = ""
join (s ∷ ss) = cat s (join ss)

-- `sep.join(parts)`
abbrev pub join_with : String → List String → String
join_with sep [] = ""
join_with sep (s ∷ []) = s
join_with sep (s ∷ t ∷ ss) = cat s (cat sep (join_with sep (t ∷ ss)))

-- `s.lstrip()`, and `\s*` at the head of a pattern.
unfoldable pub skip_spaces : String → String
skip_spaces String.[] = String.[]
skip_spaces (String.◌∷◌ c s) =
    let rest = skip_spaces s in if is_space c then rest else String.◌∷◌ c s

abbrev pub push_unless_blank : Char → String → String
push_unless_blank c String.[] = if is_space c then String.[] else String.◌∷◌ c String.[]
push_unless_blank c s = String.◌∷◌ c s

-- `s.rstrip()`
unfoldable pub rstrip : String → String
unfolding is_space
rstrip String.[] = String.[]
rstrip (String.◌∷◌ c s) = push_unless_blank c (rstrip s)

abbrev pub push_unless_break : Char → String → String
push_unless_break c String.[] = if is c 10 then String.[] else String.◌∷◌ c String.[]
push_unless_break c s = String.◌∷◌ c s

-- `s.rstrip("\n")`
unfoldable pub rstrip_breaks : String → String
rstrip_breaks String.[] = String.[]
rstrip_breaks (String.◌∷◌ c s) = push_unless_break c (rstrip_breaks s)

-- `s.strip()`
unfoldable pub strip : String → String
unfolding rstrip skip_spaces
strip s = rstrip (skip_spaces s)

-- `s` without the prefix `p`, if it begins with `p`.
unfoldable pub after_prefix : String → String → Option String
after_prefix String.[] s = some s
after_prefix (String.◌∷◌ c p) String.[] = none
after_prefix (String.◌∷◌ c p) (String.◌∷◌ d s) =
    let rest = after_prefix p s in if code c == code d then rest else none

-- `re.I`: the letter that a pattern in lower case compares, with the four characters outside ASCII
-- that fold onto an ASCII letter.
unfoldable pub fold : Char → ℕ
fold k =
    let c = code k in
    if leb 65 c && leb c 90
    then c + 32
    else if c == 0x17f
    then b's'
    else if c == 0x130 || c == 0x131
    then b'i'
    else if c == 0x212a
    then b'k'
    else c

-- `after_prefix` under `re.I`; the prefix is in lower case.
unfoldable pub after_folded : String → String → Option String
unfolding fold
after_folded String.[] s = some s
after_folded (String.◌∷◌ c p) String.[] = none
after_folded (String.◌∷◌ c p) (String.◌∷◌ d s) =
    let rest = after_folded p s in if code c == fold d then rest else none

abbrev pub starts : String → String → Bool
starts s p = elim (after_prefix p s) [ none ↦ false | some _ ↦ true ]

abbrev pub and_then {ℓ} : {A : Type ℓ} → Option String → (String → Option A) → Option A
and_then none k = none
and_then (some s) k = k s

-- `\s+` at the head of a pattern: at least one space, and all that follow.
unfoldable pub after_spaces : String → Option String
unfolding skip_spaces
after_spaces String.[] = none
after_spaces (String.◌∷◌ c s) = if is_space c then some (skip_spaces s) else none

-- `\s*$`
abbrev pub is_blank : String → Bool
is_blank s = elim (skip_spaces s) [ String.[] ↦ true | String.◌∷◌ _ _ ↦ false ]
