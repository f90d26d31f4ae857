-- ===== src/Fsm/Metrics/StartTimes/Deleted.antt =====
-- DeleteRange leaves nothing for GetRange.
use achilles_sdk.Prelude.{
  All, Bool, List, String, [], arith, false, nat_eq, refl, some, string_eq, ℕ, ◌∷◌, ◌≡◌,
}
use achilles_sdk.Fsm.Metrics.BTree.{BTree}
use achilles_sdk.Fsm.Metrics.StartTimes.{
  RequestStartTime, before, asked_for, appended_times, get_range, delete_range,
}
use achilles_sdk.Fsm.Metrics.StartTimes.Keys.{IsPlain}
use achilles_sdk.Fsm.Metrics.StartTimes.Ranges.{is_of}
use achilles_sdk.Fsm.Metrics.StartTimes.Laws.{IsPlainTree, get-delete_range, kept_by_delete_range}

-- No item of the object among the visited ones.
nothing_of :
    (k : RequestStartTime) (success : Bool) (xs : List RequestStartTime)
    → All (λ x. is_of k x ≡ false) xs
    → appended_times k success xs ≡ []
unfolding appended_times
nothing_of k success [] none_of = refl
nothing_of k success (x ∷ xs) (other, none_of) = ground arith

module _ (b : BTree before) where
  pub get_range-delete_range :
      (name namespace : String) (generation : ℕ) (success : Bool) (t : b.Tree)
      → IsPlain (asked_for name namespace generation)
      → IsPlainTree b t
      → get_range b name namespace generation success (delete_range b name namespace generation t)
        ≡ []
  unfolding get_range
  get_range-delete_range name namespace generation success t plain_k plain_t =
      nothing_of k success (b.descend_less_or_equal k t')
        (gone (b.descend_less_or_equal k t') (b.visited_are_stored k t'))
    where
      k : RequestStartTime
      k = asked_for name namespace generation

      t' : b.Tree
      t' = delete_range b name namespace generation t

      gone :
          (xs : List RequestStartTime)
          → All (λ x. (b.get x t' ≡ some x) × (before k x ≡ false)) xs
          → All (λ x. is_of k x ≡ false) xs
      gone [] stored = tt
      gone (x ∷ xs) ((found, above), stored) = (
        ground (
          arith,
          get-delete_range b x name namespace generation t
              (plain_t x x (kept_by_delete_range b x x name namespace generation t found)) plain_k
              plain_t,
          found,
          above,
        ),
        gone xs stored,
      )
