-- ===== src/Config/Ends.antt =====
-- Texts that begin or end with a character that `strip` keeps.
use text.Mathlib.TextLemmas.{nil-append, cons-append}
use saga_forge.Base.{true, false, Char, String, ◌≡◌, refl, sym, ap, ◌∙◌, str_eq, arith}
use saga_forge.Text.{is_space, cat, strip, rstrip, skip_spaces, push_unless_blank}
use saga_forge.Text.Prefixes.{str_eq-cons-nil}
use saga_forge.Config.Flow.{all_but_end, ends_with}

-- The text is not empty, and `rstrip` takes nothing off it.
pub record IsSolid (s : String) : Type 0 where
  pub kept : rstrip s ≡ s
  pub nonempty : str_eq s "" ≡ false

push-nonempty :
    (c : Char) (s : String) → str_eq s "" ≡ false → push_unless_blank c s ≡ String.◌∷◌ c s
push-nonempty c String.[] h = cc
push-nonempty c (String.◌∷◌ d s) h = refl

pub cons-IsSolid : (c : Char) (s : String) → IsSolid s → IsSolid (String.◌∷◌ c s)
unfolding rstrip
cons-IsSolid c s h = record {
  kept = ap (push_unless_blank c) h.kept ∙ push-nonempty c s h.nonempty;
  nonempty = str_eq-cons-nil c s;
}

pub cat-IsSolid : (u s : String) → IsSolid s → IsSolid (cat u s)
cat-IsSolid String.[] s h = rw (nil-append s) h
cat-IsSolid (String.◌∷◌ c u) s h =
    rw (cons-append c u s) (cons-IsSolid c (cat u s) (cat-IsSolid u s h))

-- A text whose first character is no space
pub strip-IsSolid :
    (c : Char) (s : String)
    → is_space c ≡ false
    → IsSolid (String.◌∷◌ c s)
    → strip (String.◌∷◌ c s) ≡ String.◌∷◌ c s
unfolding strip skip_spaces
strip-IsSolid c s h k = rw h k.kept

pub strip-space : (s : String) → strip (String.◌∷◌ " " s) ≡ strip s
unfolding strip skip_spaces is_space
strip-space s = refl

pub ends_with-cat : (c : Char) (u : String) → ends_with c (cat u (String.◌∷◌ c "")) ≡ true
unfolding ends_with
ends_with-cat c String.[] = rw (nil-append (String.◌∷◌ c "")) (ground arith)
ends_with-cat c (String.◌∷◌ d String.[]) =
    rw (cons-append d "" (String.◌∷◌ c ""), nil-append (String.◌∷◌ c "")) (ground arith)
ends_with-cat c (String.◌∷◌ d (String.◌∷◌ e u)) =
    rw (cons-append d (String.◌∷◌ e u) (String.◌∷◌ c ""), cons-append e u (String.◌∷◌ c ""))
      (rw (cons-append e u (String.◌∷◌ c "")) at (ends_with-cat c (String.◌∷◌ e u)))

pub all_but_end-cat : (c : Char) (u : String) → all_but_end (cat u (String.◌∷◌ c "")) ≡ u
unfolding all_but_end
all_but_end-cat c String.[] = rw (nil-append (String.◌∷◌ c "")) refl
all_but_end-cat c (String.◌∷◌ d String.[]) =
    rw (cons-append d "" (String.◌∷◌ c ""), nil-append (String.◌∷◌ c "")) refl
all_but_end-cat c (String.◌∷◌ d (String.◌∷◌ e u)) =
    rw (cons-append d (String.◌∷◌ e u) (String.◌∷◌ c ""), cons-append e u (String.◌∷◌ c ""))
      (ap (String.◌∷◌ d)
        (rw (cons-append e u (String.◌∷◌ c "")) at (all_but_end-cat c (String.◌∷◌ e u))))

-- A text between two characters
pub ends_with-between :
    (c d : Char) (s : String) → ends_with d (String.◌∷◌ c (cat s (String.◌∷◌ d ""))) ≡ true
ends_with-between c d s =
    ap (ends_with d) (sym (cons-append c s (String.◌∷◌ d ""))) ∙ ends_with-cat d (String.◌∷◌ c s)
