-- ===== src/Io/Applicator/Footprint.antt =====
-- Which requests `Apply` and `ApplyStatus` of pkg/io/applicator.go can make.
use achilles_sdk.Api.{
  Env, Gvk, Object, ObjectKey, Request, Try, create, err, get, ok, patch, patch_status, update,
  update_status,
}
use achilles_sdk.Api.Effects.{Emits, emits_rules}
use achilles_sdk.Io.Applicator.{
  ApplyOption, RequestOptions, apply, apply_existing, apply_fetched, apply_status,
  apply_status_existing, apply_status_fetched, create_new_object, write, write_difference,
  write_status,
}
use achilles_sdk.Prelude.{List}

module _ (env : Env) {P : Request → Type 0} (gets : (g : Gvk) (k : ObjectKey) → P (get g k)) where
  module _ (creates : (o : Object) → P (create o)) (updates : (o : Object) → P (update o))
      (patches : (o : Object) → P (patch o)) where
    Emits-create_new_object :
        (o : Object) (ro : RequestOptions) (opts : List ApplyOption)
        → Emits P (create_new_object env o ro opts)
    unfolding create_new_object
    Emits-create_new_object o ro opts = search (emits_rules, creates)

    Emits-write : (ro : RequestOptions) (c d : Object) → Emits P (write env ro c d)
    unfolding write
    Emits-write ro c d = search (emits_rules, updates, patches)

    Emits-write_difference :
        (ro : RequestOptions) (c d : Object) → Emits P (write_difference env ro c d)
    unfolding write_difference
    Emits-write_difference ro c d = search (emits_rules, Emits-write)

    Emits-apply_fetched :
        (c : Object) (opts : List ApplyOption) (r : Try Object)
        → Emits P (apply_fetched env c opts r)
    unfolding apply_fetched apply_existing
    Emits-apply_fetched c opts (ok f) = search (emits_rules, Emits-write_difference)
    Emits-apply_fetched c opts (err e) = search (emits_rules, Emits-create_new_object)

    -- `Apply` reads, creates, updates and patches.
    pub Emits-apply : (c : Object) (opts : List ApplyOption) → Emits P (apply env c opts)
    unfolding apply
    Emits-apply c opts = search (emits_rules, Emits-apply_fetched, Emits-create_new_object, gets)

  module _ (updates : (o : Object) → P (update_status o))
      (patches : (o : Object) → P (patch_status o)) where
    Emits-write_status : (ro : RequestOptions) (c d : Object) → Emits P (write_status env ro c d)
    unfolding write_status
    Emits-write_status ro c d = search (emits_rules, updates, patches) depth 20

    Emits-apply_status_fetched :
        (c : Object) (opts : List ApplyOption) (r : Try Object)
        → Emits P (apply_status_fetched env c opts r)
    unfolding apply_status_fetched apply_status_existing
    Emits-apply_status_fetched c opts (ok f) = search (emits_rules, Emits-write_status)
    Emits-apply_status_fetched c opts (err e) = search emits_rules

    -- `ApplyStatus` reads the object and writes its status.
    pub Emits-apply_status :
        (c : Object) (opts : List ApplyOption) → Emits P (apply_status env c opts)
    unfolding apply_status
    Emits-apply_status c opts = search (emits_rules, Emits-apply_status_fetched, gets)
