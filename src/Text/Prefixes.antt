-- ===== src/Text/Prefixes.antt =====
-- `==` and `startswith` on texts, one character at a time.
use text.Mathlib.TextLemmas.{
  nil-append, cons-append, nil≢cons, cons≢nil, head-eq_of_cons-eq, tail-eq_of_cons-eq,
}
use text.Mathlib.TextEquality.{Char-path}
use mathlib.Core.Path.{ap₂, Path}
use saga_forge.Base.{
  Bool, true, false, ◌&&◌, ◌||◌, Char, code, String, Option, none, some, ◌≡◌, refl, sym, ap, inl,
  inr, Bool-cases, ◌==◌, str_eq, eq_iff, arith,
}
use saga_forge.Text.Chars.{cat, after_prefix, starts}

pub str_eq-cons-nil : (c : Char) (s : String) → str_eq (String.◌∷◌ c s) "" ≡ false
str_eq-cons-nil c s = elim (Bool-cases (str_eq (String.◌∷◌ c s) "")) [
  | inl same ↦ absurd (cons≢nil ((eq_iff (String.◌∷◌ c s) "").0 same))
  | inr apart ↦ apart
]

pub str_eq-nil-cons : (c : Char) (s : String) → str_eq "" (String.◌∷◌ c s) ≡ false
str_eq-nil-cons c s = elim (Bool-cases (str_eq "" (String.◌∷◌ c s))) [
  | inl same ↦ absurd (nil≢cons ((eq_iff "" (String.◌∷◌ c s)).0 same))
  | inr apart ↦ apart
]

same_code : (c d : Char) → (code c == code d) ≡ true → c ≡ d
same_code c d h = Char-path c d (ground arith)

pub str_eq-cons-cons :
    (c d : Char) (s t : String)
    → str_eq (String.◌∷◌ c s) (String.◌∷◌ d t) ≡ (code c == code d && str_eq s t)
str_eq-cons-cons c d s t = elim (Bool-cases (str_eq (String.◌∷◌ c s) (String.◌∷◌ d t))) [
  | inl same ↦
      let whole : Path String (String.◌∷◌ c s) (String.◌∷◌ d t) = (eq_iff _ _).0 same in
      ground (arith, ap code (head-eq_of_cons-eq whole), (eq_iff s t).1 (tail-eq_of_cons-eq whole))
  | inr apart ↦ elim (Bool-cases (code c == code d && str_eq s t)) [
    | inl both ↦
        let head : c ≡ d = same_code c d (ground arith) in
        let tail : s ≡ t = (eq_iff s t).0 (ground arith) in
        let whole : Path String (String.◌∷◌ c s) (String.◌∷◌ d t) =
          ap₂ (λ e r. String.◌∷◌ e r) head tail in
        cc ((eq_iff (String.◌∷◌ c s) (String.◌∷◌ d t)).1 whole)
    | inr neither ↦ rw apart (sym neither)
  ]
]

-- The text is the prefix `p` and what is left; `test` says whether that will do.
abbrev pub after : (String → Bool) → Option String → Bool
after test none = false
after test (some t) = test t

-- What is left is nothing, or begins with a slash.
abbrev pub opens : String → Bool
opens String.[] = true
opens (String.◌∷◌ c _) = code c == b'/'

-- `f == p or f.startswith(p + "/")` walks `f` once.
pub opens-after_prefix :
    (p f : String) → (str_eq f p || starts f (cat p "/")) ≡ after opens (after_prefix p f)
unfolding after_prefix
opens-after_prefix String.[] String.[] = refl
opens-after_prefix String.[] (String.◌∷◌ x f) = rw (str_eq-cons-nil, nil-append) (ground arith)
opens-after_prefix (String.◌∷◌ c p) String.[] = rw (str_eq-nil-cons, cons-append) refl
opens-after_prefix (String.◌∷◌ c p) (String.◌∷◌ x f) =
    rw (str_eq-cons-cons, cons-append) (ground (arith, opens-after_prefix p f))
