-- ===== src/Fsm.antt =====
-- pkg/fsm: the finite state machine of a controller.
pub mod Types
pub mod Outputs
pub mod Machine
pub mod Reconciler
pub mod Transitions
pub mod ClaimReconciler
pub mod Metrics
pub mod Handler
pub mod Events
pub mod Builder
pub mod ClaimBuilder
