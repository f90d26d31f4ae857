-- ===== src/Sets.antt =====
-- pkg/sets: sets of comparable values and sets of Kubernetes objects.
pub mod ComparableSet
pub mod Sorting
pub mod ObjectSet
