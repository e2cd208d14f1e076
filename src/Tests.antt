-- ===== src/Tests.antt =====
-- Runs of the modelled code at concrete inputs, and the theorems applied there.
mod Samples
mod LifecycleTests
mod HistoryTests
mod CaptureTests
mod MachineTests
mod TaskTests
mod ValidateTests
mod DeltaTests
mod LockTests
mod DeriveTests
mod ResolverTests
mod ConfigTests
mod FoldTests
