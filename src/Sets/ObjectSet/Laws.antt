-- ===== src/Sets/ObjectSet/Laws.antt =====
-- What the methods of pkg/sets/object_set.go that insert and delete do to the objects of a set.
-- `IsValid`: no key twice, and every object stands under its own key. Objects are pointers in the
-- source, so the second part asks that nobody renames an object while it is in a set.
use achilles_sdk.GoMap
use achilles_sdk.GoMap.Laws.{delete-IsMap, insert-IsMap, lookup-delete, lookup-insert}
use achilles_sdk.GoMap.{GoMap, IsMap}
use achilles_sdk.Api.{Env, Object, TypedObjectRef, ref_gvk, ref_key}
use achilles_sdk.Sets.ObjectSet.{
  ObjectSet, delete, delete_by_ref, get_by_ref, insert, key_func, key_of, new_object_set,
}
use achilles_sdk.Meta.{must_typed_object_ref}
use achilles_sdk.Prelude.{
  Bool-cases, List, Option, String, [], arith, eq_iff, if◌then◌else◌, inl, inr, none, refl, some,
  string_eq, sym, ◌==◌, ◌∷◌, ◌≡◌,
}

-- The object under a key.
abbrev pub at_key : ObjectSet → String → Option Object
at_key s k = GoMap.lookup k s.set

module _ (env : Env) where
  -- Each entry stands under its object's key.
  abbrev pub IsKeyed : GoMap String Object → Type 0
  IsKeyed [] = Unit
  IsKeyed ((k, o) ∷ m) = (key_of env o ≡ k) × IsKeyed m

  pub record IsValid (s : ObjectSet) : Type 0 where
    pub is_map : IsMap s.set
    pub is_keyed : IsKeyed s.set

  insert-IsKeyed :
      (o : Object) (m : GoMap String Object) → IsKeyed m → IsKeyed (GoMap.insert (key_of env o) o m)
  unfolding GoMap.insert
  insert-IsKeyed o [] h = (refl, tt)
  insert-IsKeyed o ((k, p) ∷ m) h = elim (Bool-cases (k == key_of env o)) [
    | inl e ↦ rw e ((sym ((eq_iff _ _).0 e), h.1))
    | inr e ↦ rw e ((h.0, insert-IsKeyed o m h.1))
  ]

  delete-IsKeyed : (j : String) (m : GoMap String Object) → IsKeyed m → IsKeyed (GoMap.delete j m)
  unfolding GoMap.delete
  delete-IsKeyed j [] h = tt
  delete-IsKeyed j ((k, p) ∷ m) h = elim (Bool-cases (k == j)) [
    | inl e ↦ rw e (delete-IsKeyed j m h.1)
    | inr e ↦ rw e ((h.0, delete-IsKeyed j m h.1))
  ]

  pub new-IsValid : IsValid (new_object_set env [])
  unfolding new_object_set insert
  new-IsValid = record { is_map = tt; is_keyed = tt }

  pub insert-IsValid : (s : ObjectSet) (os : List Object) → IsValid s → IsValid (insert env s os)
  unfolding insert
  insert-IsValid s [] h = h
  insert-IsValid s (o ∷ os) h =
      insert-IsValid (record { set = GoMap.insert (key_of env o) o s.set }) os
        (record {
          is_map = insert-IsMap (key_of env o) o s.set h.is_map;
          is_keyed = insert-IsKeyed o s.set h.is_keyed;
        })

  pub delete-IsValid : (s : ObjectSet) (os : List Object) → IsValid s → IsValid (delete env s os)
  unfolding delete
  delete-IsValid s [] h = h
  delete-IsValid s (o ∷ os) h =
      delete-IsValid (record { set = GoMap.delete (key_of env o) s.set }) os
        (record {
          is_map = delete-IsMap (key_of env o) s.set h.is_map;
          is_keyed = delete-IsKeyed (key_of env o) s.set h.is_keyed;
        })

  pub delete_by_ref-IsValid :
      (s : ObjectSet) (r : TypedObjectRef) → IsValid s → IsValid (delete_by_ref env s r)
  unfolding delete_by_ref
  delete_by_ref-IsValid s r h = record {
    is_map = delete-IsMap (key_func env (ref_gvk r) (ref_key r)) s.set h.is_map;
    is_keyed = delete-IsKeyed (key_func env (ref_gvk r) (ref_key r)) s.set h.is_keyed;
  }

  pub keyed_at :
      (m : GoMap String Object) (k : String) (o : Object)
      → IsKeyed m
      → GoMap.lookup k m ≡ some o
      → key_of env o ≡ k
  unfolding GoMap.lookup
  keyed_at [] k o h p = ground arith
  keyed_at ((j, x) ∷ m) k o h p = ground (arith, eq_iff j k, keyed_at m k o h.1)

  pub at_key-insert_one :
      (s : ObjectSet) (o : Object) (k : String)
      → at_key (insert env s (o ∷ [])) k ≡ (if key_of env o == k then some o else at_key s k)
  unfolding insert
  at_key-insert_one s o k = lookup-insert (key_of env o) k o s.set

  pub at_key-delete_one :
      (s : ObjectSet) (o : Object) (k : String)
      → at_key (delete env s (o ∷ [])) k ≡ (if key_of env o == k then none else at_key s k)
  unfolding delete
  at_key-delete_one s o k = lookup-delete (key_of env o) k s.set

  -- `GetByRef` with an object's reference finds what stands under the object's key.
  pub get_by_ref_of_object :
      (s : ObjectSet) (o : Object)
      → get_by_ref env s (must_typed_object_ref o) ≡ at_key s (key_of env o)
  unfolding get_by_ref must_typed_object_ref key_of
  get_by_ref_of_object s o = refl
