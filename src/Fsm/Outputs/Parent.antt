-- ===== src/Fsm/Outputs/Parent.antt =====
-- The parent that carrying out an output set returns (pkg/fsm/io/outputs.go).
use achilles_sdk.Api.{Env, Object, TypedObjectRef}
use achilles_sdk.Api.Answers.{Returns, Returns-bind, Returns-pure, Returns-wrapping}
use achilles_sdk.Fsm.Outputs.{apply_managed_resource_refs, apply_output_set, record_refs}
use achilles_sdk.Fsm.Types.OutputSet.{OutputSet}
use achilles_sdk.Io.Applicator.{ApplyOption}
use achilles_sdk.Meta.{was_deleted}
use achilles_sdk.Sets.ObjectSet.{ObjectSet}
use achilles_sdk.Prelude.{List, refl, ◌≡◌}

module _ (env : Env) (obj : Object) where
  -- Whether the object is being deleted is as it was for `obj`.
  abbrev pub IsDeletedAlike : Object → Type 0
  IsDeletedAlike o = was_deleted o ≡ was_deleted obj

  record_refs-Returns :
      (kept : ObjectSet × List TypedObjectRef) → Returns IsDeletedAlike (record_refs env obj kept)
  unfolding record_refs was_deleted
  record_refs-Returns (new_refs, kept) =
      Returns-bind IsDeletedAlike _ _ λ _. Returns-pure IsDeletedAlike _ refl

  pub apply_output_set-Returns :
      (out : OutputSet ApplyOption) → Returns IsDeletedAlike (apply_output_set env obj out)
  unfolding apply_output_set apply_managed_resource_refs
  apply_output_set-Returns out = Returns-bind IsDeletedAlike _ _ λ _.
      Returns-bind IsDeletedAlike _ _ λ objects.
        Returns-wrapping IsDeletedAlike _ _ (Returns-bind IsDeletedAlike _ _ record_refs-Returns)
