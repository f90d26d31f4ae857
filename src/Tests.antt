-- ===== src/Tests.antt =====
-- Small runs of the model: the values that they share, and one module for each part.
pub mod World
pub mod SetRuns
pub mod OutputRuns
pub mod ApplyRuns
pub mod SettledRuns
pub mod ReconcileRuns
pub mod MachineRuns
pub mod TransitionRuns
pub mod ClaimRuns
pub mod ResourceRuns
pub mod StartRuns
pub mod SecretRuns
pub mod SortedTree
