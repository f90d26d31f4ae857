-- ===== src/Fsm/Outputs.antt =====
-- pkg/fsm/io/outputs.go: carrying out an output set, and recording the references of what the parent
-- object manages in its status.
pub mod Footprint
pub mod Deletion
pub mod Managed
pub mod Parent
use achilles_sdk.GoMap.{GoMap}
use achilles_sdk.Api.{
  Env, Exec, Object, Try, TypedObjectRef, attempt, call, delete, empty_object, err, get, lift,
  object_key, ok, patch, pure, raise, ref_gvk, ref_key, wrap, wrapping, ◌>>=◌, ◌>>◌,
}
use achilles_sdk.Io.Applicator.{ApplyOption, apply, apply_status}
use achilles_sdk.Io.Options.{with_controller_ref}
use achilles_sdk.Meta.{must_typed_object_ref, new_object_for_gvk, was_created, was_deleted}
use achilles_sdk.Sets.ObjectSet.{ObjectSet, deep_copy, delete_by_ref, list}
use achilles_sdk.Sets.Sorting.{sort_pairs}
use achilles_sdk.Fsm.Types.OutputSet.{OutputObject, OutputSet, list_applied_outputs, list_deleted}
use achilles_sdk.Prelude.{List, String, [], if◌then◌else◌, map, string_eq, ◌++◌, ◌∷◌}

-- The entries of a map with other objects, as they come: what the pointers of `List` point at after
-- the calls on them.
unfoldable pub replace_values : GoMap String Object → List Object → GoMap String Object
replace_values [] objects = []
replace_values ((k, o) ∷ m) [] = (k, o) ∷ m
replace_values ((k, o) ∷ m) (o' ∷ objects) = (k, o') ∷ replace_values m objects

module _ (env : Env) where
  -- `if err != nil && !k8serrors.IsNotFound(err) { return ... }` after a call.
  unfoldable pub ignoring_not_found : String → Try Object → Exec (Unit {0})
  ignoring_not_found text (ok o) = pure tt
  ignoring_not_found text (err e) = if env.is_not_found e then pure tt else raise (wrap text e)

  unfoldable pub delete_outputs : List Object → Exec (Unit {0})
  delete_outputs [] = pure tt
  delete_outputs (o ∷ objects) = do
    r ← attempt (call env (delete o))
    ignoring_not_found "deleting object" r
    delete_outputs objects

  -- What `base` holds after `Get`: not found leaves it empty.
  fetched_or_empty : Object → Try Object → Exec Object
  fetched_or_empty base (ok o) = pure o
  fetched_or_empty base (err e) =
      if env.is_not_found e
      then pure base
      else raise (wrap "getting resource to check for deletion" e)

  -- The body of the loop of `ensureOutputs` for a parent that is being deleted.
  unfoldable pub ensure_without_creating : Object → Exec Object
  unfolding fetched_or_empty
  ensure_without_creating res = do
    empty ← wrapping "constructing new" (lift (new_object_for_gvk env res.gvk))
    r ← attempt (call env (get res.gvk (object_key res)))
    base ← fetched_or_empty empty r
    if was_created base
        then wrapping "updating resource" (call env (patch (record res { resource_version = "" })))
        else pure res

  -- The body of the loop of `ensureOutputs`: the object as the calls leave it.
  unfoldable pub ensure_output : Object → OutputObject ApplyOption → Exec Object
  unfolding ensure_without_creating
  ensure_output obj output =
      if was_deleted obj
      then ensure_without_creating output.object
      else wrapping "ensuring"
          (apply env output.object (output.apply_opts ++ with_controller_ref env obj ∷ []))

  unfoldable pub ensure_outputs : Object → List (OutputObject ApplyOption) → Exec (List Object)
  unfolding ensure_output
  ensure_outputs obj [] = pure []
  ensure_outputs obj (output ∷ outputs) = do
    res ← ensure_output obj output
    rest ← ensure_outputs obj outputs
    pure (res ∷ rest)

  -- The branches on the outcome of `Get` in the loop of `applyManagedResourceRefs`.
  keep_ref :
      TypedObjectRef
      → ObjectSet
      → List TypedObjectRef
      → Try Object
      → Exec (ObjectSet × List TypedObjectRef)
  keep_ref ref new_refs refs (ok o) = pure (delete_by_ref env new_refs ref, refs ++ ref ∷ [])
  keep_ref ref new_refs refs (err e) =
      if env.is_not_found e
      then pure (new_refs, refs)
      else raise (wrap "getting managed resource" e)

  -- The loop over the references that the parent has, with the variables `newRefs` and `refs`.
  unfoldable pub keep_refs :
      List TypedObjectRef → ObjectSet → List TypedObjectRef → Exec (ObjectSet × List TypedObjectRef)
  unfolding keep_ref
  keep_refs [] new_refs refs = pure (new_refs, refs)
  keep_refs (ref ∷ old_refs) new_refs refs = do
    wrapping "constructing new" (lift (new_object_for_gvk env (ref_gvk ref)))
    r ← attempt (call env (get (ref_gvk ref) (ref_key ref)))
    kept ← keep_ref ref new_refs refs r
    keep_refs old_refs kept.0 kept.1

  -- The end of `applyManagedResourceRefs`: the references are set in the status and in memory.
  unfoldable pub record_refs : Object → ObjectSet × List TypedObjectRef → Exec Object
  record_refs obj (new_refs, kept) = do
    let refs = kept ++ map must_typed_object_ref (list new_refs)
    wrapping "applying status resourceRefs" (
        apply_status env
          (record (empty_object obj.gvk) {
            name = obj.name;
            namespace = obj.namespace;
            managed_resources = refs;
          })
          [])
    pure (record obj { managed_resources = refs })

  unfoldable pub apply_managed_resource_refs : Object → ObjectSet → Exec Object
  unfolding keep_refs record_refs
  apply_managed_resource_refs obj applied =
      keep_refs obj.managed_resources (deep_copy env applied) [] >>= record_refs obj

  -- `ApplyOutputSet` returns the parent with the references that it has in memory afterwards.
  unfoldable pub apply_output_set : Object → OutputSet ApplyOption → Exec Object
  unfolding delete_outputs ensure_outputs apply_managed_resource_refs replace_values
  apply_output_set obj out = do
    delete_outputs (list_deleted out)
    objects ← wrapping "ensuring outputs" (ensure_outputs obj (list_applied_outputs env out))
    wrapping "applying managed resource refs" (
        apply_managed_resource_refs obj
          (record { set = replace_values (sort_pairs out.applied.set) objects }))
