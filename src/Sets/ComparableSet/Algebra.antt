-- ===== src/Sets/ComparableSet/Algebra.antt =====
-- `HasAll`, `IsSuperset` and `Equal` of pkg/sets/comparable_set.go decide what they name.
use achilles_sdk.GoMap
use achilles_sdk.GoMap.Laws.{delete-IsMap, insert-IsMap}
use achilles_sdk.GoMap.Size.{size-delete, size_le_of_subset}
use achilles_sdk.GoMap.{GoMap, IsMap}
use achilles_sdk.Sets.ComparableSet.{
  ComparableSet, covers, delete, equal, has, has_all, insert, is_superset,
}
use achilles_sdk.Prelude.{
  Bool-cases, Bool-ext, Eq, List, [], arith, beq_refl, contains, false, inl, inr, refl, sym, true,
  ◌↔◌, ◌∙◌, ◌∷◌, ◌≡◌,
}

module _ {ℓ} {K : Type ℓ} ⦃e : Eq K⦄ where
  -- The members of `t` are members of `s`.
  abbrev pub IsSubset : ComparableSet K → ComparableSet K → Type ℓ
  IsSubset t s = (k : K) → has t k ≡ true → has s k ≡ true

  abbrev pub IsValid : ComparableSet K → Type 0
  IsValid s = IsMap s.set

  pub insert-IsValid : (s : ComparableSet K) (items : List K) → IsValid s → IsValid (insert s items)
  unfolding insert
  insert-IsValid s [] h = h
  insert-IsValid s (item ∷ items) h =
      insert-IsValid (record { set = GoMap.insert item tt s.set }) items
        (insert-IsMap item tt s.set h)

  pub delete-IsValid : (s : ComparableSet K) (items : List K) → IsValid s → IsValid (delete s items)
  unfolding delete
  delete-IsValid s [] h = h
  delete-IsValid s (item ∷ items) h =
      delete-IsValid (record { set = GoMap.delete item s.set }) items (delete-IsMap item s.set h)

  covers_sound :
      (s : ComparableSet K) (m : GoMap K (Unit {0})) (k : K)
      → covers s m ≡ true
      → has (record { set = m }) k ≡ true
      → has s k ≡ true
  unfolding covers has
  covers_sound s [] k h p = ground arith
  covers_sound s ((item, u) ∷ m) k h p = ground (arith, e.same_iff item k, covers_sound s m k)

  covers_complete :
      (s : ComparableSet K) (m : GoMap K (Unit {0}))
      → IsSubset (record { set = m }) s
      → covers s m ≡ true
  unfolding covers has
  covers_complete s [] sub = refl
  covers_complete s ((item, u) ∷ m) sub =
      ground (arith, beq_refl item, sub item, covers_complete s m (λ k p. ground (arith, sub k)))

  pub is_superset_iff : (s t : ComparableSet K) → (is_superset s t ≡ true) ↔ IsSubset t s
  unfolding is_superset
  is_superset_iff s t = (λ h k p. covers_sound s t.set k h p, covers_complete s t.set)

  shrink :
      (s t : ComparableSet K) (k : K)
      → IsSubset t s
      → has t k ≡ false
      → IsSubset t (delete s (k ∷ []))
  unfolding delete has
  shrink s t k sub absent j p =
      ground (arith, e.same_iff k j, sub j p, GoMap.Laws.member-delete k j s.set)

  -- A set that has every member of `t`, and no more of them, has no other member.
  no_more :
      (s t : ComparableSet K)
      → IsValid s
      → IsValid t
      → GoMap.size s.set ≡ GoMap.size t.set
      → IsSubset t s
      → IsSubset s t
  unfolding has delete
  no_more s t hs ht same sub k p = elim (Bool-cases (has t k)) [
    | inl q ↦ q
    | inr q ↦ absurd (
        omega (
          arith,
          size-delete k s.set hs p,
          size_le_of_subset t.set (GoMap.delete k s.set) ht (delete-IsMap k s.set hs)
              (shrink s t k sub q),
        ))
  ]

  same_size :
      (s t : ComparableSet K)
      → IsValid s
      → IsValid t
      → ((k : K) → has s k ≡ has t k)
      → GoMap.size s.set ≡ GoMap.size t.set
  unfolding has
  same_size s t hs ht same = omega (
    arith,
    size_le_of_subset s.set t.set hs ht (λ k p. sym (same k) ∙ p),
    size_le_of_subset t.set s.set ht hs (λ k p. same k ∙ p),
  )

  -- `Equal`, which compares the sizes and tests one inclusion, answers true exactly when the two
  -- sets have the same members, for sets whose maps hold no key twice.
  pub equal_iff :
      (s t : ComparableSet K)
      → IsValid s
      → IsValid t
      → (equal s t ≡ true) ↔ ((k : K) → has s k ≡ has t k)
  unfolding equal
  equal_iff s t hs ht = (
    λ h k.
        let sub = (is_superset_iff s t).0 (ground arith) in
        Bool-ext (has s k) (has t k) (no_more s t hs ht (ground arith) sub k) (sub k),
    λ same. ground (arith, same_size s t hs ht same, (is_superset_iff s t).1 (λ k p. same k ∙ p)),
  )

  -- `HasAll` answers true exactly when the set holds each of the items.
  pub has_all_iff :
      (s : ComparableSet K) (items : List K)
      → (has_all s items ≡ true) ↔ ((k : K) → contains items k ≡ true → has s k ≡ true)
  unfolding has_all
  has_all_iff s [] = (λ h k p. ground arith, λ h. refl)
  has_all_iff s (item ∷ items) = (
    λ h k p. ground (arith, e.same_iff item k, (has_all_iff s items).0 (ground arith) k),
    λ h.
        ground (arith, h item, beq_refl item, (has_all_iff s items).1 (λ k p. ground (arith, h k))),
  )
