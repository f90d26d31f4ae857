-- ===== src/Sets/ObjectSet.antt =====
-- pkg/sets/object_set.go: a set of objects keyed on group, version, kind, name and namespace. The
-- map's keys are texts that the Kubernetes libraries print, so the printers are parameters. A loop
-- that ranges over the map is a recursion on its entries, in whatever order they stand.
pub mod Laws
pub mod Algebra
pub mod Listing
use achilles_sdk.GoMap
use achilles_sdk.GoMap.{GoMap}
use achilles_sdk.Api.{Env, Gvk, Object, ObjectKey, TypedObjectRef, object_key, ref_gvk, ref_key}
use achilles_sdk.Prelude.{
  Bool, List, Option, String, [], concat, false, if◌then◌else◌, ltb, nat_eq, none, not, some,
  string_eq, true, ℕ, ◌&&◌, ◌==◌, ◌∷◌,
}
use achilles_sdk.Sets.Sorting.{sort_pairs}

pub record ObjectSet : Type 0 where
  pub set : GoMap String Object

module _ (env : Env) where
  -- fmt.Sprintf("%s:%s", gvk, key)
  unfoldable pub key_func : Gvk → ObjectKey → String
  key_func gvk key = concat (env.gvk_string gvk ∷ ":" ∷ env.object_key_string key ∷ [])

  -- The method `key`.
  unfoldable pub key_of : Object → String
  key_of o = key_func o.gvk (object_key o)

  unfoldable pub get_by_ref : ObjectSet → TypedObjectRef → Option Object
  get_by_ref s ref = GoMap.lookup (key_func (ref_gvk ref) (ref_key ref)) s.set

  unfoldable pub delete_by_ref : ObjectSet → TypedObjectRef → ObjectSet
  delete_by_ref s ref = record { set = GoMap.delete (key_func (ref_gvk ref) (ref_key ref)) s.set }

  unfoldable pub insert : ObjectSet → List Object → ObjectSet
  insert s [] = s
  insert s (item ∷ objects) =
      insert (record { set = GoMap.insert (key_of item) item s.set }) objects

  unfoldable pub new_object_set : List Object → ObjectSet
  unfolding insert
  new_object_set objects = insert (record { set = [] }) objects

  unfoldable pub delete : ObjectSet → List Object → ObjectSet
  delete s [] = s
  delete s (item ∷ objects) = delete (record { set = GoMap.delete (key_of item) s.set }) objects

  unfoldable pub has : ObjectSet → Object → Bool
  unfolding GoMap.member
  has s item = GoMap.member (key_of item) s.set

  unfoldable pub has_all : ObjectSet → List Object → Bool
  has_all s [] = true
  has_all s (item ∷ objects) = if not (has s item) then false else has_all s objects

  unfoldable pub has_any : ObjectSet → List Object → Bool
  has_any s [] = false
  has_any s (item ∷ objects) = if has s item then true else has_any s objects

  -- The loop of `Difference` over the receiver's entries.
  difference_from : ObjectSet → ObjectSet → GoMap String Object → ObjectSet
  difference_from other result [] = result
  difference_from other result ((k, obj) ∷ m) =
      difference_from other (if not (has other obj) then insert result (obj ∷ []) else result) m

  unfoldable pub difference : ObjectSet → ObjectSet → ObjectSet
  unfolding difference_from
  difference s other = difference_from other (new_object_set []) s.set

  -- The loop `for _, obj := range m { result.Insert(obj) }` of `Union`.
  insert_entries : ObjectSet → GoMap String Object → ObjectSet
  insert_entries result [] = result
  insert_entries result ((k, obj) ∷ m) = insert_entries (insert result (obj ∷ [])) m

  unfoldable pub union : ObjectSet → ObjectSet → ObjectSet
  unfolding insert_entries
  union s other = insert_entries (insert_entries (new_object_set []) other.set) s.set

  -- `result.Insert(s.set[s.key(obj)])`; a key that `s` lacks would insert a nil object and panic.
  insert_own : ObjectSet → ObjectSet → Object → ObjectSet
  insert_own s result obj = elim (GoMap.lookup (key_of obj) s.set) [
    | none ↦ result
    | some own ↦ insert result (own ∷ [])
  ]

  -- The loop of `Intersection` over the smaller set's entries.
  intersect_from : ObjectSet → ObjectSet → ObjectSet → GoMap String Object → ObjectSet
  intersect_from s next result [] = result
  intersect_from s next result ((k, obj) ∷ m) =
      intersect_from s next (if has next obj then insert_own s result obj else result) m

  unfoldable pub intersection : ObjectSet → ObjectSet → ObjectSet
  unfolding intersect_from insert_own
  intersection s other =
      if ltb (GoMap.size s.set) (GoMap.size other.set)
      then intersect_from s other (new_object_set []) s.set
      else intersect_from s s (new_object_set []) other.set

  -- The loop of `IsSuperset` over the other set's entries.
  covers : ObjectSet → GoMap String Object → Bool
  covers s [] = true
  covers s ((k, obj) ∷ m) = if not (has s obj) then false else covers s m

  unfoldable pub is_superset : ObjectSet → ObjectSet → Bool
  unfolding covers
  is_superset s other = covers s other.set

  unfoldable pub equal : ObjectSet → ObjectSet → Bool
  unfolding is_superset
  equal s other = GoMap.size s.set == GoMap.size other.set && is_superset s other

-- The loop `res = append(res, p.val)`.
unfoldable pub values : GoMap String Object → List Object
values [] = []
values ((k, obj) ∷ m) = obj ∷ values m

unfoldable pub list : ObjectSet → List Object
unfolding sort_pairs values
list s = values (sort_pairs s.set)

unfoldable pub len : ObjectSet → ℕ
len s = GoMap.size s.set

-- A deep copy of an object is the same value.
unfoldable pub deep_copy : Env → ObjectSet → ObjectSet
deep_copy env s = new_object_set env (list s)
