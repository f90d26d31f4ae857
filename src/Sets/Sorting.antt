-- ===== src/Sets/Sorting.antt =====
-- `sort.Sort(sortablePairs)` of pkg/sets/object_set.go. The keys of a map differ, so there is one
-- sorted order of its entries, and any sorting algorithm gives it: here, insertion.
use achilles_sdk.GoMap
use achilles_sdk.GoMap.{GoMap, IsMap}
use achilles_sdk.Prelude.{
  String, [], ap, arith, eq_iff, eq_refl, false, if◌then◌else◌, is_some, less, less_irrefl,
  less_total, less_trans, none, refl, some, string_eq, subst, sym, true, ◌==◌, ◌∙◌, ◌∷◌, ◌≡◌,
}

module _ {ℓ} {V : Type ℓ} where
  -- `s[i].key < s[j].key` decides the place.
  unfoldable pub insert_pair : String → V → GoMap String V → GoMap String V
  insert_pair k v [] = (k, v) ∷ []
  insert_pair k v ((j, w) ∷ m) =
      if less k j then (k, v) ∷ (j, w) ∷ m else (j, w) ∷ insert_pair k v m

  unfoldable pub sort_pairs : GoMap String V → GoMap String V
  unfolding insert_pair
  sort_pairs [] = []
  sort_pairs ((k, v) ∷ m) = insert_pair k v (sort_pairs m)

  -- Every key of the map comes after `k`.
  abbrev pub IsAbove : String → GoMap String V → Type 0
  IsAbove k [] = Unit
  IsAbove k ((j, w) ∷ m) = (less k j ≡ true) × IsAbove k m

  -- The keys grow strictly along the list.
  abbrev pub IsSorted : GoMap String V → Type 0
  IsSorted [] = Unit
  IsSorted ((k, v) ∷ m) = IsAbove k m × IsSorted m

  IsAbove-trans : (i k : String) (m : GoMap String V) → less i k ≡ true → IsAbove k m → IsAbove i m
  IsAbove-trans i k [] p h = tt
  IsAbove-trans i k ((j, w) ∷ m) p h = (less_trans i k j p h.0, IsAbove-trans i k m p h.1)

  IsAbove-insert_pair :
      (i k : String) (v : V) (m : GoMap String V)
      → less i k ≡ true
      → IsAbove i m
      → IsAbove i (insert_pair k v m)
  unfolding insert_pair
  IsAbove-insert_pair i k v [] p h = (p, tt)
  IsAbove-insert_pair i k v ((j, w) ∷ m) p h = ground (arith, IsAbove-insert_pair i k v m p h.1)

  insert_pair-IsSorted :
      (k : String) (v : V) (m : GoMap String V)
      → GoMap.member k m ≡ false
      → IsSorted m
      → IsSorted (insert_pair k v m)
  unfolding insert_pair GoMap.member GoMap.lookup
  insert_pair-IsSorted k v [] new h = (tt, tt)
  insert_pair-IsSorted k v ((j, w) ∷ m) new h = ground (
    arith,
    eq_iff j k,
    less_total k j,
    IsAbove-trans k j m,
    IsAbove-insert_pair j k v m,
    insert_pair-IsSorted k v m,
  )

  pub lookup-insert_pair :
      (k j : String) (v : V) (m : GoMap String V)
      → GoMap.member k m ≡ false
      → GoMap.lookup j (insert_pair k v m) ≡ (if k == j then some v else GoMap.lookup j m)
  unfolding insert_pair GoMap.member GoMap.lookup
  lookup-insert_pair k j v [] new = refl
  lookup-insert_pair k j v ((i, w) ∷ m) new =
      ground (arith, eq_iff k j, eq_iff i k, eq_iff i j, lookup-insert_pair k j v m)

  -- Sorting keeps every entry.
  pub lookup-sort_pairs :
      (j : String) (m : GoMap String V) → IsMap m → GoMap.lookup j (sort_pairs m) ≡ GoMap.lookup j m
  unfolding sort_pairs GoMap.member GoMap.lookup
  lookup-sort_pairs j [] h = refl
  lookup-sort_pairs j ((k, v) ∷ m) h = ground (
    arith,
    lookup-sort_pairs j m h.1,
    lookup-sort_pairs k m h.1,
    lookup-insert_pair k j v (sort_pairs m),
  )

  pub sort_pairs-IsSorted : (m : GoMap String V) → IsMap m → IsSorted (sort_pairs m)
  unfolding sort_pairs GoMap.member
  sort_pairs-IsSorted [] h = tt
  sort_pairs-IsSorted ((k, v) ∷ m) h =
      insert_pair-IsSorted k v (sort_pairs m) (ap is_some (lookup-sort_pairs k m h.1) ∙ h.0)
        (sort_pairs-IsSorted m h.1)

  -- A key below all others is absent.
  lookup-above : (k : String) (m : GoMap String V) → IsAbove k m → GoMap.lookup k m ≡ none
  unfolding GoMap.lookup
  lookup-above k [] h = refl
  lookup-above k ((j, w) ∷ m) h = ground (arith, eq_iff j k, less_irrefl k, lookup-above k m h.1)

  -- Two maps that answer every lookup alike.
  abbrev pub SameLookup : GoMap String V → GoMap String V → Type ℓ
  SameLookup m n = (j : String) → GoMap.lookup j m ≡ GoMap.lookup j n

  same_tail :
      (k : String) (v w : V) (m n : GoMap String V)
      → IsAbove k m
      → IsAbove k n
      → SameLookup ((k, v) ∷ m) ((k, w) ∷ n)
      → SameLookup m n
  unfolding GoMap.lookup
  same_tail k v w m n hm hn same j =
      ground (arith, same j, eq_iff k j, lookup-above k m hm, lookup-above k n hn)

  head_value :
      (k : String) (v w : V) (m n : GoMap String V) → SameLookup ((k, v) ∷ m) ((k, w) ∷ n) → v ≡ w
  unfolding GoMap.lookup
  head_value k v w m n same = ground (arith, same k, eq_refl k)

  head_key :
      (j k : String) (v w : V) (m n : GoMap String V)
      → IsAbove j m
      → IsAbove k n
      → SameLookup ((j, v) ∷ m) ((k, w) ∷ n)
      → j ≡ k
  unfolding GoMap.lookup
  head_key j k v w m n hm hn same = ground (
    arith,
    same j,
    same k,
    eq_iff j k,
    eq_iff k j,
    eq_refl j,
    eq_refl k,
    less_total j k,
    λ (p : less j k ≡ true). lookup-above j n (IsAbove-trans j k n p hn),
    λ (p : less k j ≡ true). lookup-above k m (IsAbove-trans k j m p hm),
  )

  -- A sorted list of entries is determined by its lookups.
  pub sorted_unique : (m n : GoMap String V) → IsSorted m → IsSorted n → SameLookup m n → m ≡ n
  unfolding GoMap.lookup
  sorted_unique [] [] hm hn same = refl
  sorted_unique [] ((k, w) ∷ n) hm hn same = ground (arith, same k, eq_refl k)
  sorted_unique ((j, v) ∷ m) [] hm hn same = ground (arith, same j, eq_refl j)
  sorted_unique ((j, v) ∷ m) ((k, w) ∷ n) hm hn same =
      let e = head_key j k v w m n hm.0 hn.0 same in
      let same' : SameLookup ((j, v) ∷ m) ((j, w) ∷ n) =
        subst (λ x. SameLookup ((j, v) ∷ m) ((x, w) ∷ n)) (sym e) same in
      let above : IsAbove j n = subst (λ x. IsAbove x n) (sym e) hn.0 in
      cc (
        e,
        head_value j v w m n same',
        sorted_unique m n hm.1 hn.1 (same_tail j v w m n hm.0 above same'),
      )

  -- Sorting forgets the order of iteration.
  pub sort_pairs_unique :
      (m n : GoMap String V) → IsMap m → IsMap n → SameLookup m n → sort_pairs m ≡ sort_pairs n
  sort_pairs_unique m n hm hn same =
      sorted_unique (sort_pairs m) (sort_pairs n) (sort_pairs-IsSorted m hm)
        (sort_pairs-IsSorted n hn)
        (λ j. lookup-sort_pairs j m hm ∙ same j ∙ sym (lookup-sort_pairs j n hn))
