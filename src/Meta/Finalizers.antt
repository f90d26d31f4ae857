-- ===== src/Meta/Finalizers.antt =====
-- The requests of `AddFinalizer` and `RemoveFinalizer` (pkg/meta/finalizers.go).
use achilles_sdk.Api.{Env, Object, Request, get, object_key, patch}
use achilles_sdk.Api.Effects.{Emits, emits_rules}
use achilles_sdk.Meta.{add_finalizer, remove_finalizer}
use achilles_sdk.Prelude.{String}

module _ (env : Env) {P : Request → Type 0} (obj : Object) (key : String) where
  -- Both read the object and patch what they read.
  pub Emits-add_finalizer :
      P (get obj.gvk (object_key obj))
      → ((o : Object) → P (patch o))
      → Emits P (add_finalizer env obj key)
  unfolding add_finalizer
  Emits-add_finalizer g p = search (emits_rules, p)

  pub Emits-remove_finalizer :
      P (get obj.gvk (object_key obj))
      → ((o : Object) → P (patch o))
      → Emits P (remove_finalizer env obj key)
  unfolding remove_finalizer
  Emits-remove_finalizer g p = search (emits_rules, p)
