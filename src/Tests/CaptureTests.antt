-- ===== src/Tests/CaptureTests.antt =====
-- The theorems on the capture calls, applied to a spec that is under way.
use saga_forge.Base.{[], ◌∷◌}
use saga_forge.Context.{left_by}
use saga_forge.Capture.Lifecycle.{SameLifecycle}
use saga_forge.Capture.Commands.{capture, set, capture-SameLifecycle}
use saga_forge.Json.{str, arr, cons, nil, of_list, json_eq}
use saga_forge.Capture.{merged_names}
use saga_forge.Capture.Names.{merged_names-records}
use saga_forge.Base.{none, any, true, refl, ◌≡◌}
use saga_forge.Tests.Samples.{env, shipped}

capture-SameLifecycle_example : SameLifecycle shipped (
    left_by
      (capture (λ s. str s) (λ _. none) env (set ("working=src" ∷ "status=planned" ∷ [])) shipped))
capture-SameLifecycle_example =
    capture-SameLifecycle (λ s. str s) (λ _. none) env (set ("working=src" ∷ "status=planned" ∷ []))
      shipped

merged_names-records_example :
    (any (json_eq (str "core")) (merged_names (arr (cons (str "api") nil)) ("core" ∷ "api" ∷ []))
      ≡ true)
    × (merged_names
          (arr (of_list (merged_names (arr (cons (str "api") nil)) ("core" ∷ "api" ∷ []))))
          ("core" ∷ "api" ∷ [])
        ≡ merged_names (arr (cons (str "api") nil)) ("core" ∷ "api" ∷ []))
merged_names-records_example =
    merged_names-records (arr (cons (str "api") nil)) ("core" ∷ "api" ∷ []) "core" refl

records_behind_the_old :
    merged_names (arr (cons (str "api") nil)) ("core" ∷ "api" ∷ []) ≡ str "api" ∷ str "core" ∷ []
unfolding merged_names
records_behind_the_old = refl
