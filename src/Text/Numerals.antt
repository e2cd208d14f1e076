-- ===== src/Text/Numerals.antt =====
-- `str(n)` is read back as `n`, so that two numbers never share a text.
use Prim.Native.Nat.{◌%◌, ◌/◌, ◌*◌}
use saga_forge.Base.{
  ℕ, zero, suc, ◌+◌, ◌-◌, ◌<◌, code, String, ltb, ◌≡◌, refl, sym, ap, ◌∙◌, inl, inr, Bool-cases,
  arith,
}
use saga_forge.Text.Paths.{digit, numeral_onto, numeral}

-- The number that the digits stand for, behind those that make `n`.
unfoldable pub read : ℕ → String → ℕ
read n String.[] = n
read n (String.◌∷◌ c s) = read (n * 10 + (code c - 48)) s

code-digit : (n : ℕ) → n < 10 → code (digit n) ≡ n + 48
code-digit zero h = refl
code-digit (suc zero) h = refl
code-digit (suc (suc zero)) h = refl
code-digit (suc (suc (suc zero))) h = refl
code-digit (suc (suc (suc (suc zero)))) h = refl
code-digit (suc (suc (suc (suc (suc zero))))) h = refl
code-digit (suc (suc (suc (suc (suc (suc zero)))))) h = refl
code-digit (suc (suc (suc (suc (suc (suc (suc zero))))))) h = refl
code-digit (suc (suc (suc (suc (suc (suc (suc (suc zero)))))))) h = refl
code-digit (suc (suc (suc (suc (suc (suc (suc (suc (suc zero))))))))) h = refl
code-digit (suc (suc (suc (suc (suc (suc (suc (suc (suc (suc n)))))))))) h = absurd (omega arith)

read-numeral_onto :
    (fuel n : ℕ) (out : String) → n < fuel → read 0 (numeral_onto fuel n out) ≡ read n out
unfolding read numeral_onto
read-numeral_onto zero n out h = absurd (omega arith)
read-numeral_onto (suc fuel) n out h = elim (Bool-cases (ltb n 10)) [
  | inl small ↦
      let c : code (digit n) ≡ n + 48 = code-digit n (ground arith) in
      rw small (ap (λ k. read k out) (omega arith))
  | inr large ↦
      let c : code (digit (n % 10)) ≡ n % 10 + 48 = code-digit (n % 10) (omega arith) in
      let less : n / 10 < fuel = ground arith in
      rw large (
        read-numeral_onto fuel (n / 10) (String.◌∷◌ (digit (n % 10)) out) less
        ∙ ap (λ k. read k out) (omega arith))
]

pub read-numeral : (n : ℕ) → read 0 (numeral n) ≡ n
unfolding read numeral
read-numeral n = read-numeral_onto (suc n) n "" (omega arith)

pub numeral_inj : (m n : ℕ) → numeral m ≡ numeral n → m ≡ n
numeral_inj m n h = sym (read-numeral m) ∙ ap (read 0) h ∙ read-numeral n
