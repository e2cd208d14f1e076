-- ===== src/Resolver/Naming.antt =====
-- `_discovered_name` finds a name that is not taken, and the names of `discover_all` are distinct.
use text.Mathlib.TextLemmas.{append_cancel_left}
use saga_forge.Base.{
  ℕ, zero, suc, ◌≤◌, ◌<◌, true, false, List, [], ◌∷◌, String, Option, none, some, ◌≡◌, refl, sym,
  ◌∙◌, inl, inr, Bool-cases, elem, length, if◌then◌else◌, str_eq, str_eq_sym, eq_iff, arith,
}
use saga_forge.Text.{split_slashes, all_but_last, last_part}
use saga_forge.Text.Numerals.{numeral_inj}
use saga_forge.Resolver.Glob.{posix}
use saga_forge.Resolver.Names.{
  numbered, count_up, first_free, free_or, base_or_count, base_name, widened, discovered_name,
}

numbered_inj : (base : String) (m n : ℕ) → numbered base m ≡ numbered base n → m ≡ n
numbered_inj base m n h =
    numeral_inj m n (append_cancel_left "-" _ _ (append_cancel_left base _ _ h))

numbered-apart :
    (base : String) (m n : ℕ) → m < n → str_eq (numbered base n) (numbered base m) ≡ false
numbered-apart base m n h = elim (Bool-cases (str_eq (numbered base n) (numbered base m))) [
  | inl same ↦ absurd (omega (arith, numbered_inj base n m ((eq_iff _ _).0 same)))
  | inr apart ↦ apart
]

-- The texts of the list other than `s`.
without : String → List String → List String
without s [] = []
without s (t ∷ ts) = let rest = without s ts in if str_eq t s then rest else t ∷ rest

elem-without :
    (s u : String) (ts : List String) → str_eq u s ≡ false → elem u (without s ts) ≡ elem u ts
unfolding without
elem-without s u [] h = refl
elem-without s u (t ∷ ts) h = elim (Bool-cases (str_eq t s)) [
  | inl same ↦
      let other : str_eq t u ≡ false = rw ((eq_iff t s).0 same) (str_eq_sym s u ∙ h) in
      rw (same, other) (elem-without s u ts h)
  | inr apart ↦ rw (apart, elem-without s u ts h) refl
]

length-without-le : (s : String) (ts : List String) → length (without s ts) ≤ length ts
unfolding without
length-without-le s [] = omega arith
length-without-le s (t ∷ ts) = ground (arith, length-without-le s ts)

length-without-lt :
    (s : String) (ts : List String) → elem s ts ≡ true → length (without s ts) < length ts
unfolding without
length-without-lt s [] h = cc
length-without-lt s (t ∷ ts) h = elim (Bool-cases (str_eq t s)) [
  | inl same ↦ rw same (omega (arith, length-without-le s ts))
  | inr apart ↦ rw apart (omega (arith, length-without-lt s ts (rw apart at h)))
]

-- A number that was passed plays no part any more.
count_up-without :
    (fuel : ℕ) (base : String) (m n : ℕ) (taken : List String)
    → m < n
    → count_up fuel base n (without (numbered base m) taken) ≡ count_up fuel base n taken
unfolding count_up
count_up-without zero base m n taken h = refl
count_up-without (suc fuel) base m n taken h =
    rw
      (
        elem-without (numbered base m) (numbered base n) taken (numbered-apart base m n h),
        count_up-without fuel base m (suc n) taken (omega arith),
      )
      refl

-- A name outside of `taken`.
abbrev pub IsFree : List String → Option String → Type 0
IsFree taken none = ⊥
IsFree taken (some name) = elem name taken ≡ false

count_up-IsSome :
    (fuel : ℕ) (base : String) (n : ℕ) (taken : List String)
    → length taken < fuel
    → (name : String) × (count_up fuel base n taken ≡ some name)
unfolding count_up
count_up-IsSome zero base n taken h = absurd (omega arith)
count_up-IsSome (suc fuel) base n taken h = elim (Bool-cases (elem (numbered base n) taken)) [
  | inl busy ↦
      let (name, found) =
        count_up-IsSome fuel base (suc n) (without (numbered base n) taken)
          (omega (arith, length-without-lt (numbered base n) taken busy)) in
      (name, rw busy (sym (count_up-without fuel base n (suc n) taken (omega arith)) ∙ found))
  | inr free ↦ (numbered base n, rw free refl)
]

count_up-free :
    (fuel : ℕ) (base : String) (n : ℕ) (taken : List String) (name : String)
    → count_up fuel base n taken ≡ some name
    → elem name taken ≡ false
unfolding count_up
count_up-free zero base n taken name h = cc
count_up-free (suc fuel) base n taken name h = elim (Bool-cases (elem (numbered base n) taken)) [
  | inl busy ↦ count_up-free fuel base (suc n) taken name (rw busy at h)
  | inr free ↦ ground arith
]

IsFree-free_or :
    (taken : List String) (a b : Option String)
    → ((name : String) → a ≡ some name → elem name taken ≡ false)
    → IsFree taken b
    → IsFree taken (free_or a b)
IsFree-free_or taken none b h k = k
IsFree-free_or taken (some name) b h k = h name refl

first_free-free :
    (taken names : List String) (name : String)
    → first_free taken names ≡ some name
    → elem name taken ≡ false
unfolding first_free
first_free-free taken [] name h = cc
first_free-free taken (n ∷ ns) name h = elim (Bool-cases (elem n taken)) [
  | inl busy ↦ first_free-free taken ns name (rw busy at h)
  | inr free ↦ ground arith
]

base_or_count-IsFree :
    (base : String) (taken : List String) → IsFree taken (base_or_count base taken)
base_or_count-IsFree base taken = elim (Bool-cases (elem base taken)) [
  | inl busy ↦
      let (name, found) = count_up-IsSome (suc (length taken)) base 2 taken (omega arith) in
      rw (busy, found) (count_up-free (suc (length taken)) base 2 taken name found)
  | inr free ↦ rw free free
]

-- The search for a name ends, and the name is not taken.
pub discovered_name-IsFree :
    (rel : String) (taken : List String) → IsFree taken (discovered_name rel taken)
unfolding discovered_name
discovered_name-IsFree rel taken =
    let parts = split_slashes (posix rel) in
    let dirs = all_but_last parts in
    IsFree-free_or taken (first_free taken (widened dirs))
      (base_or_count (base_name dirs (last_part parts)) taken)
      (first_free-free taken (widened dirs))
      (base_or_count-IsFree (base_name dirs (last_part parts)) taken)
