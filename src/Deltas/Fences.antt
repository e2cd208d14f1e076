-- ===== src/Deltas/Fences.antt =====
-- `fences_are_balanced` and what `_fence_flags` gives lines that follow balanced ones.
use Prim.Native.Nat.{◌%◌}
use saga_forge.Base.{
  ℕ, suc, Bool, true, false, not, List, [], ◌∷◌, ◌++◌, String, ◌≡◌, refl, sym, ap, ◌∙◌, inl, inr,
  Bool-cases, ◌==◌, arith,
}
use saga_forge.Text.{splitlines}
use saga_forge.Deltas.Sections.{is_fence, toggle, fence_flags_from, inside_after}

abbrev count_if : Bool → ℕ → ℕ
count_if true n = suc n
count_if false n = n

-- The loop of `fences_are_balanced`, with `opened`.
unfoldable pub fences_counted : ℕ → List String → ℕ
fences_counted opened [] = opened
fences_counted opened (line ∷ ls) = fences_counted (count_if (is_fence line) opened) ls

unfoldable pub fences_are_balanced : String → Bool
unfolding fences_counted
fences_are_balanced text = fences_counted 0 (splitlines text) % 2 == 0

-- `inside` once as many fences are counted.
abbrev is_odd : ℕ → Bool
is_odd n = not (n % 2 == 0)

odd-suc : (n : ℕ) → is_odd (suc n) ≡ not (is_odd n)
odd-suc n = ground arith

inside_after-fences_counted :
    (opened : ℕ) (ls : List String)
    → inside_after (is_odd opened) ls ≡ is_odd (fences_counted opened ls)
unfolding inside_after fences_counted
inside_after-fences_counted opened [] = refl
inside_after-fences_counted opened (line ∷ ls) = elim (Bool-cases (is_fence line)) [
  | inl opens ↦ rw (opens, sym (odd-suc opened)) (inside_after-fences_counted (suc opened) ls)
  | inr prose ↦ rw prose (inside_after-fences_counted opened ls)
]

fence_flags_from-append :
    (inside : Bool) (ls ms : List String)
    → fence_flags_from inside (ls ++ ms)
      ≡ fence_flags_from inside ls ++ fence_flags_from (inside_after inside ls) ms
unfolding fence_flags_from inside_after
fence_flags_from-append inside [] ms = refl
fence_flags_from-append inside (line ∷ ls) ms =
    rw (fence_flags_from-append (toggle inside line) ls ms) refl

-- Lines that follow a text get the flags that they have on their own if `fences_are_balanced` of the
-- text, and those that they have inside of a fence if not.
pub fence_flags_from-fences_are_balanced :
    (text : String) (ms : List String)
    → fence_flags_from false (splitlines text ++ ms)
      ≡ fence_flags_from false (splitlines text)
        ++ fence_flags_from (not (fences_are_balanced text)) ms
unfolding fences_are_balanced
fence_flags_from-fences_are_balanced text ms =
    fence_flags_from-append false (splitlines text) ms
    ∙ ap (λ b. fence_flags_from false (splitlines text) ++ fence_flags_from b ms)
        (inside_after-fences_counted 0 (splitlines text))
