-- ===== src/Api/Environment.antt =====
-- What the program calls and does not implement: the Kubernetes libraries, achilles-sdk-api and the
-- API server. All of it is a parameter. The server answers a request by the requests made so far
-- in any way it likes, so what is proved holds whatever other clients do to the objects meanwhile.
use achilles_sdk.Api.Objects.{Condition, Error, Gvk, Object, ObjectKey, Try, TypedObjectRef}
use achilles_sdk.GoMap.{GoMap}
use achilles_sdk.Prelude.{Bool, List, Option, String, ℕ}

-- Calls into the Prometheus sink, and the marks of calls into code of the SDK's user.
pub data Metric : Type 0 where
  record_suspend : Object → Bool → Metric
  record_state_duration : Gvk → String → Metric
  record_condition : Object → String → Metric
  record_readiness : Object → Metric
  record_processing_duration : Gvk → ObjectKey → ℕ → Bool → Metric
  delete_trigger : ObjectKey → String → Metric
  delete_readiness : Object → Metric
  delete_event : Object → Metric
  delete_condition : Object → String → Metric

-- What a handler does to the world outside: requests to the API server, metrics, and a log entry
-- that panics in development builds.
pub data Request : Type 0 where
  get : Gvk → ObjectKey → Request
  create : Object → Request
  create_dry_run : Object → Request
  update : Object → Request
  patch : Object → Request
  delete : Object → Request
  delete_foreground : Object → Request
  update_status : Object → Request
  patch_status : Object → Request
  metric : Metric → Request
  dpanic : Gvk → Request

-- The effects so far, the latest first.
abbrev pub History : Type 0
History = List Request

-- The top-level fields of an object converted to `map[string]any`, their values opaque.
abbrev pub Fields : Type 0
Fields = GoMap String String

pub record Env : Type 0 where
  -- runtime.Scheme has a Go type for the group, version and kind
  pub recognizes : Gvk → Bool
  pub gvk_string : Gvk → String
  pub object_key_string : ObjectKey → String
  pub ref_string : TypedObjectRef → String
  -- k8s.io/apimachinery/pkg/api/errors
  pub is_not_found : Error → Bool
  pub is_already_exists : Error → Bool
  -- controllerutil; the last two change the object, and may fail
  pub add_finalizer : Object → String → Object
  pub remove_finalizer : Object → String → Object
  pub set_controller_reference : Object → Object → Object × Option Error
  pub set_owner_reference : Object → Object → Object × Option Error
  -- achilles-sdk-api
  pub set_conditions : Object → List Condition → Object
  pub get_condition : Object → String → Condition
  pub condition_is_empty : Condition → Bool
  pub type_ready : String
  pub deleting : Condition
  pub creating : Condition
  pub available : Condition
  -- runtime.DefaultUnstructuredConverter, the package unstructured, and reflect.DeepEqual
  pub to_unstructured : Object → Try Fields
  pub remove_nested_field : Fields → String → Fields
  pub nested_field_copy : Fields → String → Try (Option String)
  pub deep_equal : Fields → Fields → Bool
  pub deep_equal_value : Option String → Option String → Bool
  -- the API server's answer, and the clock
  pub respond : History → Request → Try Object
  pub now : History → ℕ
