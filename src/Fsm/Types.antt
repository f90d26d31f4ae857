-- ===== src/Fsm/Types.antt =====
-- pkg/fsm/types: what transition functions return and what they hand to the reconciler.
pub mod Result
pub mod OutputSet
pub mod Options
