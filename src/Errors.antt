-- ===== src/Errors.antt =====
-- pkg/errors: ignore.go, and the error of status.go. An error that is nil is `none`, which no
-- predicate on errors accepts.
use achilles_sdk.Api.{Env, Error, Object, ref_gvk, ref_key}
use achilles_sdk.Meta.{must_typed_object_ref}
use achilles_sdk.Prelude.{Bool, Option, String, [], concat, if◌then◌else◌, none, some, ◌∷◌}

unfoldable pub ignore : (Error → Bool) → Option Error → Option Error
ignore is none = none
ignore is (some e) = if is e then none else some e

unfoldable pub ignore_already_exists : Env → Option Error → Option Error
unfolding ignore
ignore_already_exists env e = ignore env.is_already_exists e

-- An object whose status is not ready.
pub record ObjectStatusNotReady : Type 0 where
  pub obj : Object

unfoldable pub new_object_status_not_ready : Object → ObjectStatusNotReady
new_object_status_not_ready obj = record { obj = obj }

-- The method `Error`; `quote` is `%q` of a text.
unfoldable pub object_status_not_ready_text :
    Env → (String → String) → ObjectStatusNotReady → String
object_status_not_ready_text env quote e =
    let typed_obj = must_typed_object_ref e.obj in
    concat (
      quote (env.gvk_string (ref_gvk typed_obj))
      ∷ " "
      ∷ quote (env.object_key_string (ref_key typed_obj))
      ∷ ": object status not ready"
      ∷ [])
