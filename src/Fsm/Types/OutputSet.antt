-- ===== src/Fsm/Types/OutputSet.antt =====
-- pkg/fsm/types/output.go: the objects that a transition function wants applied and deleted.
pub mod Laws
use achilles_sdk.GoMap
use achilles_sdk.GoMap.{GoMap}
use achilles_sdk.Api.{Env, Object, TypedObjectRef, empty_object, ref_gvk}
use achilles_sdk.Sets.ObjectSet
use achilles_sdk.Sets.ObjectSet.{ObjectSet, key_of, list, new_object_set}
use achilles_sdk.Prelude.{List, String, [], map, none, some, string_eq, ◌∷◌}

-- The field type stands for io.ApplyOption; the module's user says which type that is.
pub record OutputSet (ApplyOption : Type 0) : Type 0 where
  pub applied : ObjectSet
  pub deleted : ObjectSet
  pub apply_opts : GoMap String (List ApplyOption)

pub record OutputObject (ApplyOption : Type 0) : Type 0 where
  pub object : Object
  pub apply_opts : List ApplyOption

-- v1.PartialObjectMetadata, whose group, version and kind are the reference's.
unfoldable pub partial_object : TypedObjectRef → Object
partial_object ref = record (empty_object (ref_gvk ref)) {
  name = ref.name;
  namespace = ref.namespace;
}

module _ (env : Env) {ApplyOption : Type 0} where
  unfoldable pub new_output_set : OutputSet ApplyOption
  new_output_set = record {
    applied = new_object_set env [];
    deleted = new_object_set env [];
    apply_opts = [];
  }

  unfoldable pub apply : OutputSet ApplyOption → Object → List ApplyOption → OutputSet ApplyOption
  apply s o opts = record s {
    applied = ObjectSet.insert env s.applied (o ∷ []);
    apply_opts = GoMap.insert (key_of env o) opts s.apply_opts;
  }

  -- `ApplyAll` inserts the objects and leaves the apply options alone.
  unfoldable pub apply_all : OutputSet ApplyOption → List Object → OutputSet ApplyOption
  apply_all s [] = s
  apply_all s (o ∷ objs) =
      apply_all (record s { applied = ObjectSet.insert env s.applied (o ∷ []) }) objs

  unfoldable pub delete : OutputSet ApplyOption → Object → OutputSet ApplyOption
  delete s o = record s {
    applied = ObjectSet.delete env s.applied (o ∷ []);
    apply_opts = GoMap.delete (key_of env o) s.apply_opts;
    deleted = ObjectSet.insert env s.deleted (o ∷ []);
  }

  unfoldable pub delete_all : OutputSet ApplyOption → List Object → OutputSet ApplyOption
  delete_all s [] = s
  delete_all s (o ∷ objs) = delete_all (delete s o) objs

  unfoldable pub delete_by_ref : OutputSet ApplyOption → TypedObjectRef → OutputSet ApplyOption
  delete_by_ref s ref = delete s (partial_object ref)

  -- A missing key reads as no options.
  unfoldable pub options_of : OutputSet ApplyOption → Object → List ApplyOption
  options_of s o = elim (GoMap.lookup (key_of env o) s.apply_opts) [ none ↦ [] | some opts ↦ opts ]

  unfoldable pub list_applied_outputs : OutputSet ApplyOption → List (OutputObject ApplyOption)
  unfolding options_of
  list_applied_outputs s =
      map (λ o. record { object = o; apply_opts = options_of s o }) (list s.applied)

module _ {ApplyOption : Type 0} where
  unfoldable pub list_applied : OutputSet ApplyOption → List Object
  list_applied s = list s.applied

  unfoldable pub list_deleted : OutputSet ApplyOption → List Object
  list_deleted s = list s.deleted
