-- ===== src/Io/Applicator.antt =====
-- pkg/io/applicator.go: creating, patching and updating objects. The object that the caller passes
-- in is changed in place there, and returned here. The metadata of an object can always be read.
pub mod Footprint
pub mod Laws
pub mod Locks
pub mod Settled
use achilles_sdk.Api.{
  unless_error, Env, Error, Exec, Fields, Object, Try, attempt, call, create, err,
  is_resource_version_missing, lift, object_key, ok, patch, patch_status, plain, pure, raise,
  update, update_status, wrap, wrapping, ◌>>=◌, ◌>>◌, get,
}
use achilles_sdk.Errors.{ignore}
use achilles_sdk.Prelude.{
  Bool, List, Option, [], contains, false, if◌then◌else◌, is_some, none, not, some, string_eq, ◌&&◌,
  ◌==◌, ◌||◌, ◌∷◌,
}

pub record RequestOptions : Type 0 where
  pub update : Bool
  pub enforce_optimistic_lock : Bool
  pub without_owner_refs : Bool
  pub has_explicit_owner_refs : Bool

abbrev pub no_request_options : RequestOptions
no_request_options = record {
  update = false;
  enforce_optimistic_lock = false;
  without_owner_refs = false;
  has_explicit_owner_refs = false;
}

-- An option changes the object and the request's options, and may fail after that. (The source
-- hands it a context as well; the options of this package make no requests.)
abbrev pub ApplyOption : Type 0
ApplyOption = Object → RequestOptions → Object × RequestOptions × Option Error

-- `applyOpts`: the options in order, up to the first that fails.
unfoldable pub apply_opts :
    Object → RequestOptions → List ApplyOption → Object × RequestOptions × Option Error
apply_opts o request_opts [] = (
  if request_opts.without_owner_refs then record o { owner_references = [] } else o,
  request_opts,
  none,
)
apply_opts o request_opts (fn ∷ opts) =
    let (o', request_opts', e) = fn o request_opts in
    elim e [ some e' ↦ (o', request_opts', some e') | none ↦ apply_opts o' request_opts' opts ]

module _ (env : Env) where
  unfoldable pub create_new_object : Object → RequestOptions → List ApplyOption → Exec Object
  unfolding ignore apply_opts
  create_new_object obj request_opts opts =
      let (obj', _, e) = apply_opts obj request_opts opts in
      unless_error (ignore is_resource_version_missing e) (λ e'. e')
        (wrapping "cannot create object" (call env (create obj')))

  -- `if hasStatusSubresource { unstructured.RemoveNestedField(…, "status") }`
  without_status : Object → Fields → Fields
  without_status current fields =
      if contains current.managed_fields "status"
      then env.remove_nested_field fields "status"
      else fields

  -- The requests at the end of `Apply`, for an object that differs from the server's.
  write : RequestOptions → Object → Object → Exec Object
  write request_opts current desired =
      if request_opts.update
      then (do
        wrapping "cannot update object" (
            call env (
              update (
                if desired.resource_version == ""
                then record desired { resource_version = current.resource_version }
                else desired)))
        pure current)
      else wrapping "cannot patch object" (
          call env (
            patch (
              if not request_opts.enforce_optimistic_lock
              then record desired { resource_version = "" }
              else desired)))

  -- `Apply` from the comparison on.
  write_difference : RequestOptions → Object → Object → Exec Object
  unfolding write without_status
  write_difference request_opts current desired = do
    before ← wrapping "converting current obj to unstructured" (lift (env.to_unstructured current))
    after ← wrapping "converting desired obj to unstructured" (lift (env.to_unstructured desired))
    if env.deep_equal (without_status current before) (without_status current after)
        then pure current
        else write request_opts current desired

  -- `Apply` for an object that the server has.
  apply_existing : Object → Object → List ApplyOption → Exec Object
  unfolding write_difference apply_opts
  apply_existing current desired opts =
      let (desired', request_opts, e) = apply_opts desired no_request_options opts in
      unless_error e (λ e'. wrap "applying options" e')
        (write_difference request_opts current desired')

  -- The branches on the outcome of `Get`.
  pub apply_fetched : Object → List ApplyOption → Try Object → Exec Object
  unfolding apply_existing create_new_object
  apply_fetched current opts (ok fetched) = apply_existing fetched current opts
  apply_fetched current opts (err e) =
      if env.is_not_found e
      then create_new_object current no_request_options opts
      else raise (wrap "cannot get object" e)

  unfoldable pub apply : Object → List ApplyOption → Exec Object
  unfolding apply_fetched create_new_object
  apply current opts =
      if current.name == "" && not (current.generate_name == "")
      then create_new_object current no_request_options opts
      else (do
        r ← attempt (call env (get current.gvk (object_key current)))
        apply_fetched current opts r)

  -- `ApplyStatus` from the comparison on. The resource version of `desired` is cleared before the
  -- request's options are looked at.
  write_status : RequestOptions → Object → Object → Exec (Unit {0})
  write_status request_opts current desired = do
    before ← wrapping "converting current obj to unstructured" (lift (env.to_unstructured current))
    after ← wrapping "converting desired obj to unstructured" (lift (env.to_unstructured desired))
    before_status ←
        wrapping "copying nested field from current unstructured"
          (lift (env.nested_field_copy before "status"))
    after_status ←
        wrapping "copying nested field from desired unstructured"
          (lift (env.nested_field_copy after "status"))
    let unlocked = record desired { uid = current.uid; resource_version = "" }
    if (not (is_some before_status) && not (is_some after_status))
          || env.deep_equal_value before_status after_status
        then pure tt
        else if request_opts.update
        then (do
          wrapping "cannot update object status" (
              call env
                (update_status (record unlocked { resource_version = current.resource_version })))
          pure tt)
        else (do wrapping "cannot patch object status" (call env (patch_status unlocked)); pure tt)

  apply_status_existing : Object → Object → List ApplyOption → Exec (Unit {0})
  unfolding write_status apply_opts
  apply_status_existing current desired opts =
      let (desired', request_opts, e) = apply_opts desired no_request_options opts in
      unless_error e (λ e'. wrap "applying options" e') (write_status request_opts current desired')

  apply_status_fetched : Object → List ApplyOption → Try Object → Exec (Unit {0})
  unfolding apply_status_existing
  apply_status_fetched o opts (ok current) = apply_status_existing current o opts
  apply_status_fetched o opts (err e) =
      if env.is_not_found e
      then raise (plain "object does not exist, cannot update its status")
      else raise (wrap "cannot get object" e)

  unfoldable pub apply_status : Object → List ApplyOption → Exec (Unit {0})
  unfolding apply_status_fetched
  apply_status o opts = do
    r ← attempt (call env (get o.gvk (object_key o)))
    apply_status_fetched o opts r
