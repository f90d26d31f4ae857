-- ===== src/Sets/ObjectSet/Algebra.antt =====
-- Union, intersection, difference and comparison of pkg/sets/object_set.go, by what stands under
-- each key afterwards.
use achilles_sdk.GoMap
use achilles_sdk.GoMap.{GoMap, IsMap}
use achilles_sdk.Api.{Env, Object}
use achilles_sdk.Sets.ObjectSet.Laws.{keyed_at, IsValid, IsKeyed, at_key, at_key-insert_one}
use achilles_sdk.Sets.ObjectSet.{
  key_of, new_object_set, union, insert_own, difference, intersection, intersect_from, ObjectSet,
  difference_from, has, insert, insert_entries,
}
use achilles_sdk.Prelude.{
  Option, Option-cases, String, [], arith, eq_iff, if◌then◌else◌, inl, inr, none, refl, some,
  string_eq, ◌&&◌, ◌==◌, ◌∷◌, ◌≡◌,
}

-- The first that is there.
abbrev pub either : Option Object → Option Object → Option Object
either none b = b
either (some a) b = some a

module _ (env : Env) where
  at_key-insert_entries :
      (r : ObjectSet) (m : GoMap String Object) (k : String)
      → IsKeyed env m
      → IsMap m
      → at_key (insert_entries env r m) k ≡ either (GoMap.lookup k m) (at_key r k)
  unfolding insert_entries GoMap.lookup GoMap.member
  at_key-insert_entries r [] k h d = refl
  at_key-insert_entries r ((j, o) ∷ m) k h d = ground (
    arith,
    eq_iff j k,
    at_key-insert_one env r o k,
    at_key-insert_entries (insert env r (o ∷ [])) m k h.1 d.1,
  )

  at_key-difference_from :
      (t r : ObjectSet) (m : GoMap String Object) (k : String)
      → IsKeyed env m
      → IsMap m
      → at_key (difference_from env t r m) k
        ≡ (if GoMap.member k t.set then at_key r k else either (GoMap.lookup k m) (at_key r k))
  unfolding difference_from GoMap.lookup GoMap.member has
  at_key-difference_from t r [] k h d = ground arith
  at_key-difference_from t r ((j, o) ∷ m) k h d = ground (
    arith,
    eq_iff j k,
    at_key-insert_one env r o k,
    at_key-difference_from t r m k h.1 d.1,
    at_key-difference_from t (insert env r (o ∷ [])) m k h.1 d.1,
  )

  at_key-insert_own :
      (s r : ObjectSet) (o : Object) (k : String)
      → IsKeyed env s.set
      → at_key (insert_own env s r o) k
        ≡ (if key_of env o == k && GoMap.member k s.set then at_key s k else at_key r k)
  unfolding insert_own GoMap.member
  at_key-insert_own s r o k h = elim (Option-cases (GoMap.lookup (key_of env o) s.set)) [
    | inl e ↦ ground (arith, e, eq_iff (key_of env o) k)
    | inr (own, e) ↦ ground (
      arith,
      e,
      eq_iff (key_of env o) k,
      eq_iff (key_of env own) k,
      keyed_at env s.set (key_of env o) own h e,
      at_key-insert_one env r own k,
    )
  ]

  at_key-intersect_from :
      (s n r : ObjectSet) (m : GoMap String Object) (k : String)
      → IsKeyed env s.set
      → IsKeyed env m
      → at_key (intersect_from env s n r m) k ≡ (
          if GoMap.member k m && (GoMap.member k n.set && GoMap.member k s.set)
          then at_key s k
          else at_key r k)
  unfolding intersect_from GoMap.lookup GoMap.member has
  at_key-intersect_from s n r [] k hs h = refl
  at_key-intersect_from s n r ((j, o) ∷ m) k hs h = ground (
    arith,
    eq_iff j k,
    at_key-insert_own s r o k hs,
    at_key-intersect_from s n r m k hs h.1,
    at_key-intersect_from s n (insert_own env s r o) m k hs h.1,
  )

  at_key-new : (k : String) → at_key (new_object_set env []) k ≡ none
  unfolding new_object_set insert GoMap.lookup
  at_key-new k = refl

  -- The union holds the receiver's object under a key of the receiver, and the other set's elsewhere.
  pub at_key-union :
      (s t : ObjectSet) (k : String)
      → IsValid env s
      → IsValid env t
      → at_key (union env s t) k ≡ either (at_key s k) (at_key t k)
  unfolding union
  at_key-union s t k hs ht = ground (
    arith,
    at_key-new k,
    at_key-insert_entries (new_object_set env []) t.set k ht.is_keyed ht.is_map,
    at_key-insert_entries (insert_entries env (new_object_set env []) t.set) s.set k hs.is_keyed
        hs.is_map,
  )

  pub at_key-intersection :
      (s t : ObjectSet) (k : String)
      → IsValid env s
      → IsValid env t
      → at_key (intersection env s t) k ≡ (if GoMap.member k t.set then at_key s k else none)
  unfolding intersection GoMap.member
  at_key-intersection s t k hs ht = ground (
    arith,
    at_key-new k,
    at_key-intersect_from s t (new_object_set env []) s.set k hs.is_keyed hs.is_keyed,
    at_key-intersect_from s s (new_object_set env []) t.set k hs.is_keyed ht.is_keyed,
  )

  pub at_key-difference :
      (s t : ObjectSet) (k : String)
      → IsValid env s
      → at_key (difference env s t) k ≡ (if GoMap.member k t.set then none else at_key s k)
  unfolding difference
  at_key-difference s t k hs = ground (
    arith,
    at_key-new k,
    at_key-difference_from t (new_object_set env []) s.set k hs.is_keyed hs.is_map,
  )

  -- For valid sets, `Union`, `Intersection` and `Difference` take their objects from the receiver:
  -- under each key the union has the receiver's object, or else the other set's; the intersection
  -- has the receiver's object where the other set has the key; the difference has it where the
  -- other set does not. The choice of the smaller set to iterate over makes no difference.
  pub object_operations :
      (s t : ObjectSet) (k : String)
      → IsValid env s
      → IsValid env t
      → (at_key (union env s t) k ≡ either (at_key s k) (at_key t k))
        × (at_key (intersection env s t) k ≡ (if GoMap.member k t.set then at_key s k else none))
        × (at_key (difference env s t) k ≡ (if GoMap.member k t.set then none else at_key s k))
  object_operations s t k hs ht =
      (at_key-union s t k hs ht, at_key-intersection s t k hs ht, at_key-difference s t k hs)
