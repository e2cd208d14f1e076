-- ===== src/Tests/MachineTests.antt =====
-- The theorems on the lifecycle machine, applied to a spec whose plan is being written.
use saga_forge.Base.{true, false, refl, ◌≡◌}
use saga_forge.Context.{is_shipped}
use saga_forge.Lifecycle.{happen_all}
use saga_forge.Lifecycle.Machine.{point_of}
use saga_forge.Lifecycle.Progress.{has_reached, happen_all-has_reached, happen_all-live}
use saga_forge.Tests.Samples.{setting, life, building, planning}

happen_all-has_reached_example :
    has_reached 2 (point_of (happen_all setting life planning)).step ≡ true
happen_all-has_reached_example = happen_all-has_reached setting 2 life planning refl refl

happen_all-live_example :
    is_shipped (point_of (happen_all setting building planning)).status ≡ false
unfolding saga_forge.Context.step_completed_status
happen_all-live_example = happen_all-live setting building planning refl refl
