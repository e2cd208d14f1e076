-- ===== src/History/AppendOnly.antt =====
-- The log before and after `append_complete` and the splice of `_guard_append_only`.
use saga_forge.Base.{
  Bool, true, false, [], ◌∷◌, ◌++◌, String, Option, ◌≡◌, refl, inl, inr, arith, Bool-cases, Extends,
  Extends-refl, ◌≤◌, ◌⊎◌, any, keep_step, not, length, length-append, leb,
}
use saga_forge.History.Entries.{Log, has_complete, append_complete, complete_entry, finish_key}
use saga_forge.History.Merge.{splice, added, same_key}
use saga_forge.Json.{Json}
use mathlib.Core.List.{Memᴰ}

-- A finish is put behind the log that was there, which stays as it is.
pub append_complete-Extends :
    (log : Log) (step : String) (substep task : Option String) (by at : String)
    → Extends log (append_complete log step substep task by at)
unfolding append_complete
append_complete-Extends log step substep task by at =
    elim (Bool-cases (has_complete log step (finish_key substep task))) [
      | inl old ↦ rw old (Extends-refl log)
      | inr new ↦ rw new (complete_entry step substep task by at ∷ [], refl)
    ]

mem-keep_step : (b : Bool) (x : Json) {e : Json} (xs : Log) → Memᴰ e xs → Memᴰ e (keep_step b x xs)
mem-keep_step true x xs m = Memᴰ.tail m
mem-keep_step false x xs m = m

mem-append_right : {e : Json} (xs ys : Log) → Memᴰ e ys → Memᴰ e (xs ++ ys)
mem-append_right [] ys m = m
mem-append_right (x ∷ xs) ys m = Memᴰ.tail (mem-append_right xs ys m)

-- An entry that is brought is kept by the filter, or has its key on disk.
added_cases :
    (existing outgoing : Log) (e : Json)
    → Memᴰ e outgoing
    → (any (same_key e) existing ≡ true) ⊎ Memᴰ e (added existing outgoing)
added_cases existing [] e m = elim m [ ]
added_cases existing (x ∷ xs) e (Memᴰ.head p) = elim (Bool-cases (any (same_key x) existing)) [
  | inl old ↦ inl (rw p old)
  | inr new ↦ inr (rw new (Memᴰ.head p))
]
added_cases existing (x ∷ xs) e (Memᴰ.tail m) =
    let here = any (same_key x) existing in
    elim (added_cases existing xs e m) [
      | inl old ↦ inl old
      | inr kept ↦ inr (mem-keep_step (not here) x _ kept)
    ]

-- Of each entry of the list, the published log has it, or its key was on disk.
abbrev pub AllKept : Log → Log → Log → Type 0
AllKept existing published [] = Unit {0}
AllKept existing published (e ∷ es) =
    ((any (same_key e) existing ≡ true) ⊎ Memᴰ e published) × AllKept existing published es

AllKept-of :
    (existing published outgoing es : Log)
    → ((e : Json) → Memᴰ e outgoing → (any (same_key e) existing ≡ true) ⊎ Memᴰ e published)
    → ((e : Json) → Memᴰ e es → Memᴰ e outgoing)
    → AllKept existing published es
AllKept-of existing published outgoing [] kept sub = tt
AllKept-of existing published outgoing (e ∷ es) kept sub = (
  kept e (sub e (Memᴰ.head refl)),
  AllKept-of existing published outgoing es kept (λ x m. sub x (Memᴰ.tail m)),
)

behind :
    (existing outgoing : Log) (e : Json)
    → Memᴰ e outgoing
    → (any (same_key e) existing ≡ true) ⊎ Memᴰ e (existing ++ added existing outgoing)
behind existing outgoing e m = elim (added_cases existing outgoing e m) [
  | inl old ↦ inl old
  | inr new ↦ inr (mem-append_right existing _ new)
]

-- The log that is published, over whatever the write brings, is never shorter than the one on disk:
-- it is the one that the write brings, which has as many entries or more, or what is on disk stands
-- in front of it, in order. Each entry that the write brings is published, or its key was on disk.
pub splice_keeps :
    (existing outgoing : Log)
    → (length existing ≤ length (splice existing outgoing))
      × ((splice existing outgoing ≡ outgoing) ⊎ Extends existing (splice existing outgoing))
      × AllKept existing (splice existing outgoing) outgoing
unfolding splice
splice_keeps existing outgoing = elim (Bool-cases (leb (length existing) (length outgoing))) [
  | inl longer ↦ rw longer (
    ground arith,
    inl refl,
    AllKept-of existing outgoing outgoing outgoing (λ e m. inr m) (λ e m. m),
  )
  | inr shorter ↦ rw shorter (
    omega (arith, length-append existing (added existing outgoing)),
    inr (added existing outgoing, refl),
    AllKept-of existing (existing ++ added existing outgoing) outgoing outgoing
        (behind existing outgoing) (λ e m. m),
  )
]

pub splice_self : (log : Log) → splice log log ≡ log
unfolding splice
splice_self log = ground arith
