-- ===== src/Config/Regions.antt =====
-- The owned region of companion.yml, cut at what stands behind its last block.
use saga_forge.Base.{
  true, false, ◌||◌, List, [], ◌∷◌, ◌++◌, String, ◌≡◌, refl, inl, inr, Bool-cases, arith,
}
use saga_forge.Config.Splice.{has_owned, only_spacing, behind_block, behind_owned}

only_spacing-append :
    (xs ys : List String) → only_spacing xs ≡ false → only_spacing (xs ++ ys) ≡ false
unfolding only_spacing
only_spacing-append [] ys h = cc
only_spacing-append (x ∷ xs) ys h = ground (arith, only_spacing-append xs ys)

behind_block-spacing : (ls : List String) → only_spacing ls ≡ true → behind_block ls ≡ ls
unfolding behind_block only_spacing
behind_block-spacing [] h = refl
behind_block-spacing (l ∷ ls) h = rw h refl

pub only_spacing-behind_block : (ls : List String) → only_spacing (behind_block ls) ≡ true
unfolding behind_block only_spacing
only_spacing-behind_block [] = refl
only_spacing-behind_block (l ∷ ls) = elim (Bool-cases (only_spacing (l ∷ ls))) [
  | inl spacing ↦ rw spacing spacing
  | inr text ↦ rw text (only_spacing-behind_block ls)
]

behind_block-append :
    (ls post : List String)
    → behind_block ls ≡ []
    → only_spacing post ≡ true
    → behind_block (ls ++ post) ≡ post
unfolding behind_block
behind_block-append [] post e h = behind_block-spacing post h
behind_block-append (l ∷ ls) post e h = elim (Bool-cases (only_spacing (l ∷ ls))) [
  | inl spacing ↦ cc (rw spacing at e)
  | inr text ↦
      rw (only_spacing-append (l ∷ ls) post text) (behind_block-append ls post (rw text at e) h)
]

pub has_owned-append : (xs ys : List String) → has_owned (xs ++ ys) ≡ (has_owned xs || has_owned ys)
unfolding has_owned
has_owned-append [] ys = refl
has_owned-append (x ∷ xs) ys = ground (arith, has_owned-append xs ys)

has_owned-behind_block :
    (ls : List String) → has_owned ls ≡ false → has_owned (behind_block ls) ≡ false
unfolding behind_block has_owned
has_owned-behind_block [] h = refl
has_owned-behind_block (l ∷ ls) h = elim (Bool-cases (only_spacing (l ∷ ls))) [
  | inl spacing ↦ rw spacing h
  | inr text ↦ rw text (has_owned-behind_block ls (ground arith))
]

pub behind_owned-append :
    (b post : List String)
    → has_owned b ≡ true
    → behind_owned b ≡ []
    → has_owned post ≡ false
    → only_spacing post ≡ true
    → behind_owned (b ++ post) ≡ post
unfolding behind_owned has_owned
behind_owned-append [] post o e n h = cc
behind_owned-append (l ∷ ls) post o e n h = elim (Bool-cases (has_owned ls)) [
  | inl more ↦
      rw (has_owned-append ls post, more) (behind_owned-append ls post more (rw more at e) n h)
  | inr last ↦ rw (has_owned-append ls post, last, n) (behind_block-append ls post (rw last at e) h)
]

-- What is left behind the owned region has no key of the registry, and begins with the spacing.
pub behind_owned-rest :
    (ls : List String)
    → (has_owned (behind_owned ls) ≡ false) × (only_spacing (behind_owned ls) ≡ true)
unfolding behind_owned has_owned only_spacing
behind_owned-rest [] = (refl, refl)
behind_owned-rest (l ∷ ls) = elim (Bool-cases (has_owned ls)) [
  | inl more ↦ rw more (behind_owned-rest ls)
  | inr last ↦ rw last (has_owned-behind_block ls last, only_spacing-behind_block ls)
]
