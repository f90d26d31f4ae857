-- ===== src/Fsm/Outputs/Footprint.antt =====
-- The requests that carrying out an output set can make (pkg/fsm/io/outputs.go).
use achilles_sdk.Api.{
  Env, Gvk, Object, ObjectKey, Request, Try, TypedObjectRef, delete, err, get, ok, patch,
  patch_status, update_status,
}
use achilles_sdk.Api.Effects.{Emits, emits_rules}
use achilles_sdk.Fsm.Outputs.{
  apply_status, apply_managed_resource_refs, apply_output_set, delete_outputs, ensure_output,
  ensure_outputs, ensure_without_creating, fetched_or_empty, ignoring_not_found, keep_ref,
  keep_refs,
}
use achilles_sdk.Fsm.Types.OutputSet.{OutputObject, OutputSet}
use achilles_sdk.Io.Applicator.{ApplyOption}
use achilles_sdk.Io.Applicator.Footprint.{Emits-apply_status}
use achilles_sdk.Meta.{was_deleted}
use achilles_sdk.Sets.ObjectSet.{ObjectSet}
use achilles_sdk.Prelude.{List, String, [], refl, true, ◌∷◌, ◌≡◌}

module _ (env : Env) {P : Request → Type 0} (gets : (g : Gvk) (k : ObjectKey) → P (get g k))
    (deletes : (o : Object) → P (delete o))
    (patches : (o : Object) → o.resource_version ≡ "" → P (patch o))
    (status_updates : (o : Object) → P (update_status o))
    (status_patches : (o : Object) → P (patch_status o)) where
  Emits-ignoring_not_found :
      (text : String) (r : Try Object) → Emits P (ignoring_not_found env text r)
  unfolding ignoring_not_found
  Emits-ignoring_not_found text (ok o) = search emits_rules
  Emits-ignoring_not_found text (err e) = search emits_rules

  pub Emits-delete_outputs : (os : List Object) → Emits P (delete_outputs env os)
  unfolding delete_outputs
  Emits-delete_outputs [] = search emits_rules
  Emits-delete_outputs (o ∷ os) =
      let rest = λ (_ : Unit {0}). Emits-delete_outputs os in
      search (emits_rules, Emits-ignoring_not_found, deletes, rest)

  Emits-fetched_or_empty : (base : Object) (r : Try Object) → Emits P (fetched_or_empty env base r)
  unfolding fetched_or_empty
  Emits-fetched_or_empty base (ok o) = search emits_rules
  Emits-fetched_or_empty base (err e) = search emits_rules

  Emits-ensure_without_creating : (res : Object) → Emits P (ensure_without_creating env res)
  unfolding ensure_without_creating
  Emits-ensure_without_creating res =
      let p = patches (record res { resource_version = "" }) refl in
      search (emits_rules, Emits-fetched_or_empty, gets, p) depth 12

  Emits-keep_ref :
      (ref : TypedObjectRef) (s : ObjectSet) (refs : List TypedObjectRef) (r : Try Object)
      → Emits P (keep_ref env ref s refs r)
  unfolding keep_ref
  Emits-keep_ref ref s refs (ok o) = search emits_rules
  Emits-keep_ref ref s refs (err e) = search emits_rules

  Emits-keep_refs :
      (old : List TypedObjectRef) (s : ObjectSet) (refs : List TypedObjectRef)
      → Emits P (keep_refs env old s refs)
  unfolding keep_refs
  Emits-keep_refs [] s refs = search emits_rules
  Emits-keep_refs (ref ∷ old) s refs =
      let rest = λ (k : ObjectSet × List TypedObjectRef). Emits-keep_refs old k.0 k.1 in
      search (emits_rules, Emits-keep_ref, gets, rest) depth 12

  Emits-status : (c : Object) (opts : List ApplyOption) → Emits P (apply_status env c opts)
  Emits-status c opts = Emits-apply_status env gets status_updates status_patches c opts

  pub Emits-apply_managed_resource_refs :
      (obj : Object) (s : ObjectSet) → Emits P (apply_managed_resource_refs env obj s)
  unfolding apply_managed_resource_refs
  Emits-apply_managed_resource_refs obj s =
      search (emits_rules, Emits-keep_refs, Emits-status) depth 12

  -- The outputs of a parent that is being deleted.
  Emits-ensure_outputs_deleted :
      (obj : Object) (outputs : List (OutputObject ApplyOption))
      → was_deleted obj ≡ true
      → Emits P (ensure_outputs env obj outputs)
  unfolding ensure_outputs ensure_output
  Emits-ensure_outputs_deleted obj [] d = search emits_rules
  Emits-ensure_outputs_deleted obj (output ∷ outputs) d =
      let rest = λ (_ : Object). Emits-ensure_outputs_deleted obj outputs d in
      rw d (search (emits_rules, Emits-ensure_without_creating, rest) depth 12)

  pub Emits-apply_output_set_deleted :
      (obj : Object) (out : OutputSet ApplyOption)
      → was_deleted obj ≡ true
      → Emits P (apply_output_set env obj out)
  unfolding apply_output_set
  Emits-apply_output_set_deleted obj out d =
      let ensured =
        λ (os : List (OutputObject ApplyOption)). Emits-ensure_outputs_deleted obj os d in
      search (emits_rules, Emits-delete_outputs, ensured, Emits-apply_managed_resource_refs) depth
        12
