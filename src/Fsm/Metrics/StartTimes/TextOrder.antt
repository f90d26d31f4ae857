-- ===== src/Fsm/Metrics/StartTimes/TextOrder.antt =====
-- Generations are compared by their decimal texts, where ten comes before nine.
use achilles_sdk.Prelude.{
  String, arith, decimal, eq_iff, false, less, nat_eq, none, plain, refl, string_eq, true, ◌≡◌,
}
use achilles_sdk.Fsm.Metrics.BTree.{BTree}
use achilles_sdk.Fsm.Metrics.StartTimes.{before, asked_for, delete_range}
use achilles_sdk.Fsm.Metrics.StartTimes.Laws.{IsPlainTree, get-delete_range}
use achilles_sdk.Fsm.Metrics.StartTimes.Refinement.{before-same}

ten_before_nine : (less (decimal 10) (decimal 9) ≡ true) × (less (decimal 9) (decimal 10) ≡ false)
unfolding decimal
ten_before_nine = (refl, refl)

module _ (b : BTree before) where
  -- For names without slashes, DeleteRange for generation 10 of an object leaves the start time of
  -- its generation 9, and DeleteRange for generation 9 removes that of its generation 10.
  pub delete_range_by_text :
      (name namespace : String) (t : b.Tree)
      → plain namespace ≡ true
      → plain name ≡ true
      → IsPlainTree b t
      → (b.get (asked_for name namespace 9) (delete_range b name namespace 10 t)
          ≡ b.get (asked_for name namespace 9) t)
        × (b.get (asked_for name namespace 10) (delete_range b name namespace 9 t) ≡ none)
  delete_range_by_text name namespace t p q plain_t = (
    ground (
      arith,
      get-delete_range b (asked_for name namespace 9) name namespace 10 t (p, q) (p, q) plain_t,
      before-same (asked_for name namespace 10) (asked_for name namespace 9) refl refl,
      ten_before_nine,
    ),
    ground (
      arith,
      get-delete_range b (asked_for name namespace 10) name namespace 9 t (p, q) (p, q) plain_t,
      before-same (asked_for name namespace 9) (asked_for name namespace 10) refl refl,
      ten_before_nine,
      eq_iff name name,
      eq_iff namespace namespace,
    ),
  )
