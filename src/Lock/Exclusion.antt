-- ===== src/Lock/Exclusion.antt =====
-- The processes in the hold of the write lock, along an interleaving.
use saga_forge.Base.{
  ℕ, Bool, true, false, List, [], ◌∷◌, none, some, ◌==◌, ◌≡◌, refl, sym, ap, ◌∙◌, inl, inr,
  Bool-cases, Option-cases, arith, subst, any,
}
use saga_forge.Lock.Protocol.{
  Lock, free, made, owned, Phase, polling, created, holding, reclaiming, releasing, done, World,
  at_start, Action, create, write, judge, remove, check_own, drop, give_up, crash, move, go_on,
  token_written, create_on, own_on, act_at, actor, act, run,
}

-- What the phase of a process says of the lock file.
abbrev fits : Phase → ℕ → Lock → Bool
fits created q (made p) = p == q
fits created q l = false
fits holding q (owned p) = p == q
fits holding q l = false
fits releasing q (owned p) = p == q
fits releasing q l = false
fits reclaiming q l = false
fits polling q l = true
fits done q l = true

abbrev Sound : World → Type 0
Sound w = (q : ℕ) → fits (w.phase q) q w.lock ≡ true

abbrev is_of : ℕ → Lock → Bool
is_of q free = false
is_of q (made p) = p == q
is_of q (owned p) = p == q

-- A process that the lock file is not of is not in the hold, whatever becomes of the file.
away :
    (ph : Phase) (q : ℕ) (l l' : Lock)
    → is_of q l ≡ false
    → fits ph q l ≡ true
    → fits ph q l' ≡ true
away polling q l l' h f = refl
away done q l l' h f = refl
away reclaiming q l l' h f = cc
away created q free l' h f = cc
away created q (made p) l' h f = let clash : true ≡ false = sym f ∙ h in cc
away created q (owned p) l' h f = cc
away holding q free l' h f = cc
away holding q (made p) l' h f = cc
away holding q (owned p) l' h f = let clash : true ≡ false = sym f ∙ h in cc
away releasing q free l' h f = cc
away releasing q (made p) l' h f = cc
away releasing q (owned p) l' h f = let clash : true ≡ false = sym f ∙ h in cc

same_number : (q p : ℕ) → (q == p) ≡ true → q ≡ p
same_number q p h = ground arith

itself : (p : ℕ) → (p == p) ≡ true
itself p = ground arith

apart : (p q r : ℕ) → (r == p) ≡ true → (q == p) ≡ false → (r == q) ≡ false
apart p q r h n = ground arith

-- A process moves, the lock file with it, and the other processes are sound still.
go_on-Sound :
    (p : ℕ) (ph : Phase) (l : Lock) (w : World)
    → Sound w
    → fits ph p l ≡ true
    → ((q : ℕ) → (q == p) ≡ false → fits (w.phase q) q l ≡ true)
    → Sound (record { lock = l; phase = move p ph w.phase })
go_on-Sound p ph l w sound own others q = elim (Bool-cases (q == p)) [
  | inl here ↦ rw here (rw (same_number q p here) own)
  | inr there ↦ rw there (others q there)
]

reached : {x w : World} → some x ≡ some w → Sound x → Sound w
reached {x} {w} e sound = let same : x ≡ w = cc in subst Sound same sound

module _ (p : ℕ) (w : World) (sound : Sound w) where
  create_on-Sound : (l : Lock) (w' : World) → w.lock ≡ l → create_on l p w ≡ some w' → Sound w'
  create_on-Sound free w' here e = reached e (
      go_on-Sound p created (made p) w sound (itself p) (λ q n.
        away (w.phase q) q free (made p) refl
          (subst (λ l. fits (w.phase q) q l ≡ true) here (sound q))))
  create_on-Sound (made _) w' here e = cc
  create_on-Sound (owned _) w' here e = cc

  write_on-Sound :
      (l : Lock) (w' : World)
      → w.lock ≡ l
      → fits created p l ≡ true
      → go_on p holding (token_written p l) w ≡ some w'
      → Sound w'
  write_on-Sound free w' here own e = cc
  write_on-Sound (owned _) w' here own e = cc
  write_on-Sound (made r) w' here own e = reached e (
      rw own (
        go_on-Sound p holding (owned p) w sound (itself p) (λ q n.
          away (w.phase q) q (made r) (owned p) (apart p q r own n)
            (subst (λ l. fits (w.phase q) q l ≡ true) here (sound q)))))

  own_on-Sound :
      (l : Lock) (w' : World)
      → w.lock ≡ l
      → fits holding p l ≡ true
      → own_on l p w ≡ some w'
      → Sound w'
  own_on-Sound free w' here own e = cc
  own_on-Sound (made _) w' here own e = cc
  own_on-Sound (owned r) w' here own e = reached (rw own at e) (
      go_on-Sound p releasing (owned r) w sound own
        (λ q n. subst (λ l. fits (w.phase q) q l ≡ true) here (sound q)))

  drop_on-Sound :
      (l : Lock) (w' : World)
      → w.lock ≡ l
      → fits releasing p l ≡ true
      → go_on p done free w ≡ some w'
      → Sound w'
  drop_on-Sound free w' here own e = cc
  drop_on-Sound (made _) w' here own e = cc
  drop_on-Sound (owned r) w' here own e = reached e (
      go_on-Sound p done free w sound refl (λ q n.
        away (w.phase q) q (owned r) free (apart p q r own n)
          (subst (λ l. fits (w.phase q) q l ≡ true) here (sound q))))

  leave-Sound : (w' : World) → go_on p done w.lock w ≡ some w' → Sound w'
  leave-Sound w' e = reached e (go_on-Sound p done w.lock w sound refl (λ q n. sound q))

abbrev pub is_judge : Action → Bool
is_judge (judge p) = true
is_judge _ = false

act_at-Sound :
    (a : Action) (ph : Phase) (w w' : World)
    → fits ph (actor a) w.lock ≡ true
    → is_judge a ≡ false
    → Sound w
    → act_at a ph w ≡ some w'
    → Sound w'
act_at-Sound (create p) polling w w' own calm sound e = create_on-Sound p w sound w.lock w' refl e
act_at-Sound (write p) created w w' own calm sound e = write_on-Sound p w sound w.lock w' refl own e
act_at-Sound (check_own p) holding w w' own calm sound e =
    own_on-Sound p w sound w.lock w' refl own e
act_at-Sound (drop p) releasing w w' own calm sound e = drop_on-Sound p w sound w.lock w' refl own e
act_at-Sound (give_up p) polling w w' own calm sound e = leave-Sound p w sound w' e
act_at-Sound (crash p) ph w w' own calm sound e = leave-Sound p w sound w' e
act_at-Sound (judge p) ph w w' own calm sound e = cc
act_at-Sound (remove p) reclaiming w w' own calm sound e = cc
act_at-Sound _ _ w w' own calm sound e = cc

run-Sound :
    (actions : List Action) (w w' : World)
    → any is_judge actions ≡ false
    → Sound w
    → run actions w ≡ some w'
    → Sound w'
unfolding run act
run-Sound [] w w' calm sound e = reached e sound
run-Sound (a ∷ rest) w w' calm sound e = elim (Option-cases (act_at a (w.phase (actor a)) w)) [
  | inl stuck ↦ let nothing : none ≡ some w' = rw stuck at e in cc
  | inr (next, step) ↦
      run-Sound rest next w' (ground arith)
        (act_at-Sound a (w.phase (actor a)) w next (sound (actor a)) (ground arith) sound step)
        (rw step at e)
]

-- The process holds the lock, and reads and publishes.
abbrev pub is_in : Phase → Bool
is_in holding = true
is_in releasing = true
is_in _ = false

in_hold : (ph : Phase) (q : ℕ) (l : Lock) → is_in ph ≡ true → fits ph q l ≡ true → l ≡ owned q
in_hold holding q (owned p) h f = let same : p ≡ q = same_number p q f in ap owned same
in_hold holding q free h f = cc
in_hold holding q (made p) h f = cc
in_hold releasing q (owned p) h f = let same : p ≡ q = same_number p q f in ap owned same
in_hold releasing q free h f = cc
in_hold releasing q (made p) h f = cc
in_hold polling q l h f = cc
in_hold created q l h f = cc
in_hold reclaiming q l h f = cc
in_hold done q l h f = cc

-- In every interleaving of takes, releases and crashes in which no process judges the lock
-- abandoned or its owner gone, at most one process holds the lock.
pub run-excludes :
    (actions : List Action) (w : World) (p q : ℕ)
    → any is_judge actions ≡ false
    → run actions at_start ≡ some w
    → is_in (w.phase p) ≡ true
    → is_in (w.phase q) ≡ true
    → p ≡ q
run-excludes actions w p q calm e in_p in_q =
    let sound : Sound w = run-Sound actions at_start w calm (λ _. refl) e in
    let of_p : w.lock ≡ owned p = in_hold (w.phase p) p w.lock in_p (sound p) in
    let of_q : w.lock ≡ owned q = in_hold (w.phase q) q w.lock in_q (sound q) in
    let same : owned p ≡ owned q = sym of_p ∙ of_q in cc
