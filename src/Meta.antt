-- ===== src/Meta.antt =====
-- pkg/meta: labels.go, meta.go, finalizers.go, owner.go, namespace.go, scope.go.
-- MustGVKForObject and MustTypedObjectRefFromObject panic for a type that is not registered with
-- the scheme. The model leaves the panic out: the object's `gvk` is what the scheme has for it.
pub mod Finalizers
pub mod Labels
use achilles_sdk.GoMap
use achilles_sdk.GoMap.{GoMap}
use achilles_sdk.Api.{
  Env, Error, Exec, Gvk, Object, Request, Try, TypedObjectRef, call, empty_object, err, object_key,
  ok, plain, wrapping, wrap, ◌>>=◌, get, patch, pure,
}
use achilles_sdk.Prelude.{
  Bool, Option, String, [], false, if◌then◌else◌, is_some, none, not, some, string_eq, ◌==◌, ◌∷◌,
}

abbrev pub application_name_key : String
application_name_key = "infrared.reddit.com/name"

abbrev pub application_version_key : String
application_version_key = "infrared.reddit.com/version"

abbrev pub component_name_key : String
component_name_key = "infrared.reddit.com/component"

abbrev pub managed_by_key : String
managed_by_key = "infrared.reddit.com/managed-by"

abbrev pub suspend_key : String
suspend_key = "infrared.reddit.com/suspend"

abbrev pub infrared_system_namespace : String
infrared_system_namespace = "infrared-system"

abbrev pub cluster_components_namespace : String
cluster_components_namespace = "infrared-cluster-components"

-- The package's variables.
pub record Application : Type 0 where
  pub application_name : String
  pub application_version : String
  pub component_name : String

-- InitRedditLabels assigns all of them, whatever they were.
unfoldable pub init_reddit_labels : String → String → String → Application → Application
init_reddit_labels application_name application_version component_name app = record app {
  application_name = application_name;
  application_version = application_version;
  component_name = component_name;
}

unfoldable pub reddit_labels : Application → String → GoMap String String
reddit_labels app controller_name =
    (application_name_key, app.application_name)
    ∷ (application_version_key, app.application_version)
    ∷ (component_name_key, app.component_name)
    ∷ (managed_by_key, controller_name)
    ∷ []

-- The loop `for k, v := range labels { objLabels[k] = v }`.
merge_labels : GoMap String String → GoMap String String → GoMap String String
merge_labels obj_labels [] = obj_labels
merge_labels obj_labels ((k, v) ∷ rest) = merge_labels (GoMap.insert k v obj_labels) rest

unfoldable pub set_reddit_labels : Application → Object → String → Object
unfolding merge_labels reddit_labels
set_reddit_labels app obj controller_name = record obj {
  labels = merge_labels obj.labels (reddit_labels app controller_name);
}

-- A missing key reads as "".
unfoldable pub has_suspend_label : Object → Bool
has_suspend_label o = elim (GoMap.lookup suspend_key o.labels) [
  | none ↦ false
  | some v ↦ not (v == "")
]

unfoldable pub was_deleted : Object → Bool
was_deleted o = is_some o.deletion_timestamp

unfoldable pub was_created : Object → Bool
was_created o = is_some o.creation_timestamp

-- MustTypedObjectRefFromObject
unfoldable pub must_typed_object_ref : Object → TypedObjectRef
must_typed_object_ref o = record {
  group = o.gvk.group;
  version = o.gvk.version;
  kind = o.gvk.kind;
  name = o.name;
  namespace = o.namespace;
}

-- What the REST mapper answers for a type, as the name of the mapping's scope, is the first
-- argument.
unfoldable pub resource_scope : (Gvk → Try String) → Object → Try String
resource_scope rest_mapping o = elim (rest_mapping o.gvk) [
  | err e ↦ err (wrap "fetching REST mapping for gvk" e)
  | ok scope ↦ ok scope
]

module _ (env : Env) where
  unfoldable pub typed_object_ref_from_object : Object → Try TypedObjectRef
  unfolding must_typed_object_ref
  typed_object_ref_from_object o =
      if env.recognizes o.gvk
      then ok (must_typed_object_ref o)
      else err (plain "no kind is registered for the type")

  unfoldable pub new_object_for_gvk : Gvk → Try Object
  new_object_for_gvk gvk =
      if env.recognizes gvk
      then ok (empty_object gvk)
      else err (wrap "constructing new" (plain "no kind is registered"))

  -- AddFinalizer reads the object anew, and returns it as the server has it after the patch.
  unfoldable pub add_finalizer : Object → String → Exec Object
  add_finalizer obj finalizer_key = do
    fetched ←
        wrapping "fetching object before updating with finalizer"
          (call env (get obj.gvk (object_key obj)))
    wrapping "patching object with finalizer addition"
        (call env (patch (env.add_finalizer fetched finalizer_key)))

  unfoldable pub remove_finalizer : Object → String → Exec Object
  remove_finalizer obj finalizer_key = do
    fetched ←
        wrapping "fetching object before remove finalizer" (call env (get obj.gvk (object_key obj)))
    wrapping "patching object with finalizer removal"
        (call env (patch (env.remove_finalizer fetched finalizer_key)))

  -- SetControllerRef and SetOwnerRef change the object, which is the first argument.
  unfoldable pub set_controller_ref : Object → Object → Object × Option Error
  set_controller_ref o owner =
      let (o', e) = env.set_controller_reference owner o in
      (o', elim e [ none ↦ none | some e' ↦ some (wrap "setting controller reference on" e') ])

  unfoldable pub set_owner_ref : Object → Object → Object × Option Error
  set_owner_ref o owner =
      let (o', e) = env.set_owner_reference owner o in
      (o', elim e [ none ↦ none | some e' ↦ some (wrap "setting owner reference on" e') ])
