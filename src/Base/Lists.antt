-- ===== src/Base/Lists.antt =====
-- Lists over the native numbers: lengths, Boolean searches, and prefixes.
use Prim.Native.Nat.{ℕ, suc, ◌+◌, ◌≤◌}
use mathlib.Core.Path.{◌≡◌, refl, ap}
use mathlib.Core.Bool.{Bool, true, false, ◌||◌}
use mathlib.Core.List.{List, [], ◌∷◌, ◌++◌, append-nil, append_assoc}
use native.Mathlib.Omega.{arith}

module _ {ℓ} {A : Type ℓ} where
  abbrev pub length : List A → ℕ
  length [] = 0
  length (x ∷ xs) = suc (length xs)

  -- Python's `any(test(x) for x in xs)`.
  abbrev pub any : (A → Bool) → List A → Bool
  any test [] = false
  any test (x ∷ xs) = test x || any test xs

  abbrev pub keep_step : Bool → A → List A → List A
  keep_step true x xs = x ∷ xs
  keep_step false x xs = xs

  -- Python's `[x for x in xs if test(x)]`.
  abbrev pub keep : (A → Bool) → List A → List A
  keep test [] = []
  keep test (x ∷ xs) = keep_step (test x) x (keep test xs)

  -- `xs` begins with `pre`.
  abbrev pub Extends : List A → List A → Type ℓ
  Extends pre xs = (more : List A) × (xs ≡ pre ++ more)

  pub length-append : (xs ys : List A) → length (xs ++ ys) ≡ length xs + length ys
  length-append [] ys = omega arith
  length-append (x ∷ xs) ys = omega (arith, length-append xs ys)

  pub any-append :
      (test : A → Bool) (xs ys : List A) → any test (xs ++ ys) ≡ (any test xs || any test ys)
  any-append test [] ys = refl
  any-append test (x ∷ xs) ys = ground (arith, any-append test xs ys)

  pub Extends-refl : (xs : List A) → Extends xs xs
  Extends-refl xs = ([], rw append-nil)

  pub Extends-trans : (xs ys zs : List A) → Extends xs ys → Extends ys zs → Extends xs zs
  Extends-trans xs ys zs (m, p) (n, q) = (m ++ n, rw (q, p) (append_assoc xs m n))

  pub length-Extends : (xs ys : List A) → Extends xs ys → length xs ≤ length ys
  length-Extends xs ys (m, p) = omega (arith, ap length p, length-append xs m)
