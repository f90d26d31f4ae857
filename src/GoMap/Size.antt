-- ===== src/GoMap/Size.antt =====
-- Counting: a map whose keys all stand in a map that is no larger has the same keys.
use achilles_sdk.Prelude.{
  Bool-cases, Eq, [], arith, beq_refl, false, inl, inr, refl, suc, true, ◌==◌, ◌∷◌, ◌≡◌, ◌≤◌,
}
use achilles_sdk.GoMap.{GoMap, IsMap, delete, lookup, member, size}
use achilles_sdk.GoMap.Laws.{member-delete, delete-IsMap}

module _ {ℓ κ} {K : Type ℓ} {V : Type κ} ⦃e : Eq K⦄ where
  delete_absent : (k : K) (m : GoMap K V) → member k m ≡ false → delete k m ≡ m
  unfolding delete member lookup
  delete_absent k [] h = refl
  delete_absent k ((j, w) ∷ m) h = ground (arith, delete_absent k m)

  -- Deleting a key that is there takes one entry away.
  pub size-delete :
      (k : K) (m : GoMap K V) → IsMap m → member k m ≡ true → suc (size (delete k m)) ≡ size m
  unfolding delete member lookup
  size-delete k [] h p = ground arith
  size-delete k ((j, w) ∷ m) h p = elim (Bool-cases (j == k)) [
    | inl q ↦ ground (arith, e.same_iff j k, delete_absent k m)
    | inr q ↦ ground (arith, size-delete k m h.1)
  ]

module _ {ℓ κ μ} {K : Type ℓ} {V : Type κ} {W : Type μ} ⦃e : Eq K⦄ where
  -- Leaving out a key that the rest of the left map does not have keeps the inclusion.
  kept :
      (k : K) (v : V) (m : GoMap K V) (n : GoMap K W)
      → ((j : K) → member j ((k, v) ∷ m) ≡ true → member j n ≡ true)
      → member k m ≡ false
      → (j : K) → member j m ≡ true
      → member j (delete k n) ≡ true
  unfolding member lookup
  kept k v m n sub absent j p = ground (arith, member-delete k j n, sub j, e.same_iff k j)

  -- The pigeonhole principle: distinct keys that all stand in `n` are no more than `n` has.
  pub size_le_of_subset :
      (m : GoMap K V) (n : GoMap K W)
      → IsMap m
      → IsMap n
      → ((k : K) → member k m ≡ true → member k n ≡ true)
      → size m ≤ size n
  unfolding member lookup
  size_le_of_subset [] n hm hn sub = omega arith
  size_le_of_subset ((k, v) ∷ m) n hm hn sub = omega (
    arith,
    size-delete k n hn (sub k (ground (arith, beq_refl k))),
    size_le_of_subset m (delete k n) hm.1 (delete-IsMap k n hn) (kept k v m n sub hm.0),
  )
