-- ===== src/GoMap/Laws.antt =====
-- Lookup laws of Go's maps, in `if` form, and the operations keep the keys distinct.
use achilles_sdk.Prelude.{
  Eq, [], arith, beq_refl, if◌then◌else◌, none, not, refl, some, ◌&&◌, ◌==◌, ◌||◌, ◌∷◌, ◌≡◌,
}
use achilles_sdk.GoMap.{GoMap, IsMap, delete, insert, lookup, member}

module _ {ℓ κ} {K : Type ℓ} {V : Type κ} ⦃e : Eq K⦄ where
  pub lookup-insert :
      (key asked : K) (new : V) (entries : GoMap K V)
      → lookup asked (insert key new entries)
        ≡ (if key == asked then some new else lookup asked entries)
  unfolding lookup insert
  lookup-insert key asked new [] = refl
  lookup-insert key asked new ((i, old) ∷ entries) = ground (
    arith,
    e.same_iff i asked,
    e.same_iff i key,
    e.same_iff key asked,
    lookup-insert key asked new entries,
  )

  pub lookup-delete :
      (k j : K) (m : GoMap K V) → lookup j (delete k m) ≡ (if k == j then none else lookup j m)
  unfolding lookup delete
  lookup-delete k j [] = ground arith
  lookup-delete k j ((i, w) ∷ m) =
      ground (arith, e.same_iff k j, e.same_iff i k, e.same_iff i j, lookup-delete k j m)

  pub lookup-insert_self :
      (key : K) (new : V) (entries : GoMap K V) → lookup key (insert key new entries) ≡ some new
  lookup-insert_self key new entries =
      ground (arith, lookup-insert key key new entries, beq_refl key)

  pub member-insert :
      (k j : K) (v : V) (m : GoMap K V) → member j (insert k v m) ≡ (k == j || member j m)
  unfolding member
  member-insert k j v m = ground (arith, lookup-insert k j v m)

  pub member-delete :
      (k j : K) (m : GoMap K V) → member j (delete k m) ≡ (not (k == j) && member j m)
  unfolding member
  member-delete k j m = ground (arith, lookup-delete k j m)

  pub insert-IsMap : (k : K) (v : V) (m : GoMap K V) → IsMap m → IsMap (insert k v m)
  unfolding insert member lookup
  insert-IsMap k v [] h = (refl, tt)
  insert-IsMap k v ((j, w) ∷ m) h =
      ground (arith, insert-IsMap k v m, e.same_iff j k, e.same_iff k j, lookup-insert k j v m)

  pub delete-IsMap : (k : K) (m : GoMap K V) → IsMap m → IsMap (delete k m)
  unfolding delete member
  delete-IsMap k [] h = tt
  delete-IsMap k ((j, w) ∷ m) h =
      ground (arith, delete-IsMap k m, e.same_iff j k, e.same_iff k j, lookup-delete k j m)
