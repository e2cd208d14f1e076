-- ===== src/Tests/LifecycleTests.antt =====
-- The theorems on the lifecycle, applied to runs of a whole life of a spec.
use saga_forge.Base.{arith, refl, Extends}
use saga_forge.Context.{Folder}
use saga_forge.Context.Written.{log_of}
use saga_forge.History.Grows.{IsUnique}
use saga_forge.Capture.Lifecycle.{SameLifecycle}
use saga_forge.Lifecycle.{happen_all}
use saga_forge.Lifecycle.Traces.{happen_all-Extends, happen_all-IsUnique}
use saga_forge.Lifecycle.Shipped.{happen_all_shipped}
use saga_forge.Tests.Samples.{fresh, setting, life, shipped}

-- A spec on which the whole life was run.
abbrev done : Folder
done = happen_all setting life fresh

happen_all-Extends_example : Extends (log_of done) (log_of (happen_all setting life done))
happen_all-Extends_example = happen_all-Extends setting life done

happen_all-IsUnique_example : IsUnique (log_of (happen_all setting life fresh))
unfolding saga_forge.History.canonical_log
happen_all-IsUnique_example = happen_all-IsUnique setting life fresh (λ step part. omega arith)

happen_all_shipped_example : SameLifecycle shipped (happen_all setting life shipped)
happen_all_shipped_example = happen_all_shipped setting life shipped refl
