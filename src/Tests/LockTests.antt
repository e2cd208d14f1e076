-- ===== src/Tests/LockTests.antt =====
-- The lock: a run with a crash behind a release, and a race of two reclaims.
use saga_forge.Base.{ℕ, List, [], ◌∷◌, Option, none, some, refl, ◌≡◌}
use saga_forge.Lock.{
  World, Phase, holding, polling, created, releasing, done, owned, move, at_start, Action, create,
  write, judge, remove, check_own, drop, crash, run,
}
use saga_forge.Lock.Exclusion.{run-excludes}

abbrev phase_of : ℕ → Option World → Option Phase
phase_of p none = none
phase_of p (some w) = some (w.phase p)

abbrev calm_run : List Action
calm_run = create 0 ∷ write 0 ∷ check_own 0 ∷ drop 0 ∷ create 1 ∷ crash 0 ∷ write 1 ∷ []

abbrev after : World
after = record {
  lock = owned 1;
  phase = move 1 holding (
      move 0 done (
        move 1 created
          (move 0 done (move 0 releasing (move 0 holding (move 0 created (λ _. polling)))))));
}

run-excludes_example : ◌≡◌ {A = ℕ} 1 1
unfolding run
run-excludes_example = run-excludes calm_run after 1 1 refl refl refl refl

-- Two processes find the lock of one that crashed, and both read its token a second time before
-- either removes the file. The second removes the first one's new lock, and both hold.
abbrev race : List Action
race =
    create 0
    ∷ write 0
    ∷ crash 0
    ∷ judge 1
    ∷ judge 2
    ∷ remove 1
    ∷ create 1
    ∷ write 1
    ∷ remove 2
    ∷ create 2
    ∷ write 2
    ∷ []

first_of_the_race_holds : phase_of 1 (run race at_start) ≡ some holding
unfolding run
first_of_the_race_holds = refl

second_of_the_race_holds : phase_of 2 (run race at_start) ≡ some holding
unfolding run
second_of_the_race_holds = refl
