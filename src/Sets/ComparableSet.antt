-- ===== src/Sets/ComparableSet.antt =====
-- pkg/sets/comparable_set.go: a set of values of a comparable type, kept as the keys of a map.
-- A method that changes its receiver returns the new set. A loop that ranges over a map is a
-- recursion on its entries, in whatever order they stand.
pub mod Laws
pub mod Algebra
use achilles_sdk.GoMap
use achilles_sdk.GoMap.{GoMap}
use achilles_sdk.Prelude.{
  Bool, Eq, List, [], false, if◌then◌else◌, ltb, nat_eq, not, true, ℕ, ◌&&◌, ◌==◌, ◌∷◌,
}

pub record ComparableSet {ℓ} (K : Type ℓ) : Type ℓ where
  pub set : GoMap K (Unit {0})

module _ {ℓ} {K : Type ℓ} ⦃e : Eq K⦄ where
  unfoldable pub insert : ComparableSet K → List K → ComparableSet K
  insert s [] = s
  insert s (item ∷ items) = insert (record { set = GoMap.insert item tt s.set }) items

  unfoldable pub delete : ComparableSet K → List K → ComparableSet K
  delete s [] = s
  delete s (item ∷ items) = delete (record { set = GoMap.delete item s.set }) items

  unfoldable pub new_comparable_set : List K → ComparableSet K
  unfolding insert
  new_comparable_set items = insert (record { set = [] }) items

  unfoldable pub has : ComparableSet K → K → Bool
  unfolding GoMap.member GoMap.lookup
  has s item = GoMap.member item s.set

  unfoldable pub has_all : ComparableSet K → List K → Bool
  has_all s [] = true
  has_all s (item ∷ items) = if not (has s item) then false else has_all s items

  unfoldable pub has_any : ComparableSet K → List K → Bool
  has_any s [] = false
  has_any s (item ∷ items) = if has s item then true else has_any s items

  -- The loop of `Difference` over the receiver's entries.
  difference_from : ComparableSet K → ComparableSet K → GoMap K (Unit {0}) → ComparableSet K
  difference_from other result [] = result
  difference_from other result ((item, _) ∷ m) =
      difference_from other (if not (has other item) then insert result (item ∷ []) else result) m

  unfoldable pub difference : ComparableSet K → ComparableSet K → ComparableSet K
  unfolding difference_from
  difference s other = difference_from other (new_comparable_set []) s.set

  -- The loop `for item := range m { result.Insert(item) }` of `Union`.
  insert_entries : ComparableSet K → GoMap K (Unit {0}) → ComparableSet K
  insert_entries result [] = result
  insert_entries result ((item, _) ∷ m) = insert_entries (insert result (item ∷ [])) m

  unfoldable pub union : ComparableSet K → ComparableSet K → ComparableSet K
  unfolding insert_entries
  union s other = insert_entries (insert_entries (new_comparable_set []) other.set) s.set

  -- The loop of `Intersection` over the smaller set's entries.
  intersect_from : ComparableSet K → ComparableSet K → GoMap K (Unit {0}) → ComparableSet K
  intersect_from next result [] = result
  intersect_from next result ((item, _) ∷ m) =
      intersect_from next (if has next item then insert result (item ∷ []) else result) m

  unfoldable pub intersection : ComparableSet K → ComparableSet K → ComparableSet K
  unfolding intersect_from
  intersection s other =
      if ltb (GoMap.size s.set) (GoMap.size other.set)
      then intersect_from other (new_comparable_set []) s.set
      else intersect_from s (new_comparable_set []) other.set

  -- The loop of `IsSuperset` over the other set's entries.
  covers : ComparableSet K → GoMap K (Unit {0}) → Bool
  covers s [] = true
  covers s ((item, _) ∷ m) = if not (has s item) then false else covers s m

  unfoldable pub is_superset : ComparableSet K → ComparableSet K → Bool
  unfolding covers
  is_superset s other = covers s other.set

  unfoldable pub equal : ComparableSet K → ComparableSet K → Bool
  unfolding is_superset
  equal s other = GoMap.size s.set == GoMap.size other.set && is_superset s other

  -- The keys in the order of iteration.
  keys : GoMap K (Unit {0}) → List K
  keys [] = []
  keys ((item, _) ∷ m) = item ∷ keys m

  unfoldable pub unordered_list : ComparableSet K → List K
  unfolding keys
  unordered_list s = keys s.set

  unfoldable pub len : ComparableSet K → ℕ
  len s = GoMap.size s.set

  -- `UnorderedList` yields exactly `len(s.set)` items, so each slot of `items` is written once.
  unfoldable pub deep_copy : ComparableSet K → ComparableSet K
  unfolding unordered_list
  deep_copy s = new_comparable_set (unordered_list s)
