-- ===== src/Sets/ComparableSet/Laws.antt =====
-- What `Has` answers after each operation of pkg/sets/comparable_set.go.
use achilles_sdk.GoMap
use achilles_sdk.GoMap.Laws.{member-insert, member-delete}
use achilles_sdk.GoMap.{GoMap}
use achilles_sdk.Sets.ComparableSet.{
  ComparableSet, difference_from, difference, delete, has, insert, insert_entries, intersect_from,
  intersection, new_comparable_set, union,
}
use achilles_sdk.Prelude.{
  Bool, Eq, List, [], arith, contains, false, not, refl, ◌&&◌, ◌==◌, ◌||◌, ◌∷◌, ◌≡◌,
}

module _ {ℓ} {K : Type ℓ} ⦃e : Eq K⦄ where
  has-insert_one :
      (s : ComparableSet K) (item k : K) → has (insert s (item ∷ [])) k ≡ (item == k || has s k)
  unfolding insert has
  has-insert_one s item k = member-insert item k tt s.set

  -- After `Insert(items...)` the set holds the items and what it held before.
  pub has-insert :
      (s : ComparableSet K) (items : List K) (k : K)
      → has (insert s items) k ≡ (contains items k || has s k)
  unfolding insert
  has-insert s [] k = refl
  has-insert s (item ∷ items) k = ground (
    arith,
    has-insert_one s item k,
    has-insert (record { set = GoMap.insert item tt s.set }) items k,
  )

  has-delete_one :
      (s : ComparableSet K) (item k : K)
      → has (delete s (item ∷ [])) k ≡ (not (item == k) && has s k)
  unfolding delete has
  has-delete_one s item k = member-delete item k s.set

  -- After `Delete(items...)` the set holds what it held before, without the items.
  pub has-delete :
      (s : ComparableSet K) (items : List K) (k : K)
      → has (delete s items) k ≡ (not (contains items k) && has s k)
  unfolding delete
  has-delete s [] k = refl
  has-delete s (item ∷ items) k = ground (
    arith,
    has-delete_one s item k,
    has-delete (record { set = GoMap.delete item s.set }) items k,
  )

  has_new : (k : K) → has (new_comparable_set []) k ≡ false
  unfolding has new_comparable_set insert
  has_new k = refl

  abbrev in_entries : GoMap K (Unit {0}) → K → Bool
  in_entries m k = has (record { set = m }) k

  has-insert_entries :
      (r : ComparableSet K) (m : GoMap K (Unit {0})) (k : K)
      → has (insert_entries r m) k ≡ (in_entries m k || has r k)
  unfolding insert_entries has
  has-insert_entries r [] k = refl
  has-insert_entries r ((item, u) ∷ m) k =
      ground (arith, has-insert_one r item k, has-insert_entries (insert r (item ∷ [])) m k)

  has-intersect_from :
      (n r : ComparableSet K) (m : GoMap K (Unit {0})) (k : K)
      → has (intersect_from n r m) k ≡ ((in_entries m k && has n k) || has r k)
  unfolding intersect_from has
  has-intersect_from n r [] k = refl
  has-intersect_from n r ((item, u) ∷ m) k = ground (
    arith,
    e.same_iff item k,
    has-insert_one r item k,
    has-intersect_from n r m k,
    has-intersect_from n (insert r (item ∷ [])) m k,
  )

  has-difference_from :
      (o r : ComparableSet K) (m : GoMap K (Unit {0})) (k : K)
      → has (difference_from o r m) k ≡ ((in_entries m k && not (has o k)) || has r k)
  unfolding difference_from has
  has-difference_from o r [] k = refl
  has-difference_from o r ((item, u) ∷ m) k = ground (
    arith,
    e.same_iff item k,
    has-insert_one r item k,
    has-difference_from o r m k,
    has-difference_from o (insert r (item ∷ [])) m k,
  )

  pub has-union : (s t : ComparableSet K) (k : K) → has (union s t) k ≡ (has s k || has t k)
  unfolding union
  has-union s t k = ground (
    arith,
    has_new k,
    has-insert_entries (new_comparable_set []) t.set k,
    has-insert_entries (insert_entries (new_comparable_set []) t.set) s.set k,
  )

  pub has-intersection :
      (s t : ComparableSet K) (k : K) → has (intersection s t) k ≡ (has s k && has t k)
  unfolding intersection
  has-intersection s t k = ground (
    arith,
    has_new k,
    has-intersect_from t (new_comparable_set []) s.set k,
    has-intersect_from s (new_comparable_set []) t.set k,
  )

  pub has-difference :
      (s t : ComparableSet K) (k : K) → has (difference s t) k ≡ (has s k && not (has t k))
  unfolding difference
  has-difference s t k =
      ground (arith, has_new k, has-difference_from t (new_comparable_set []) s.set k)

  -- Membership after `Union`, `Intersection` and `Difference` is the disjunction, the conjunction
  -- and the difference of the memberships, whichever of the two sets is the larger and in whatever
  -- order their maps are iterated.
  pub set_operations :
      (s t : ComparableSet K) (k : K)
      → (has (union s t) k ≡ (has s k || has t k))
        × (has (intersection s t) k ≡ (has s k && has t k))
        × (has (difference s t) k ≡ (has s k && not (has t k)))
  set_operations s t k = (has-union s t k, has-intersection s t k, has-difference s t k)
