-- ===== src/Sets/ObjectSet/Listing.antt =====
-- `List` and `DeepCopy` of pkg/sets/object_set.go.
use achilles_sdk.GoMap
use achilles_sdk.GoMap.{IsMap}
use achilles_sdk.Sets.Sorting.{
  IsSorted, lookup-sort_pairs, sort_pairs, sort_pairs-IsSorted, sort_pairs_unique,
}
use achilles_sdk.Sets.ObjectSet.Laws.{at_key}
use achilles_sdk.Sets.ObjectSet.{ObjectSet, list, values}
use achilles_sdk.Prelude.{String, ap, refl, string_eq, ◌≡◌}

-- `List` returns the same slice for two sets that hold the same objects under the same keys, in
-- whatever order their maps are iterated; and that slice is the objects of a list of entries whose
-- keys grow strictly and which answers every lookup as the set does.
pub list_stable :
    (s t : ObjectSet)
    → IsMap s.set
    → IsMap t.set
    → ((k : String) → at_key s k ≡ at_key t k)
    → (list s ≡ list t)
      × IsSorted (sort_pairs s.set)
      × (list s ≡ values (sort_pairs s.set))
      × ((k : String) → GoMap.lookup k (sort_pairs s.set) ≡ at_key s k)
unfolding list
list_stable s t hs ht same = (
  ap values (sort_pairs_unique s.set t.set hs ht same),
  sort_pairs-IsSorted s.set hs,
  refl,
  λ k. lookup-sort_pairs k s.set hs,
)
