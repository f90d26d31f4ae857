-- ===== src/Tests/World.antt =====
-- A small program for the runs: two objects, an API server that has nothing and one that always
-- answers with the same object, and a controller with one state.
use achilles_sdk.Api.{
  Condition, Env, Error, Gvk, History, Object, ObjectKey, Request, Try, TypedObjectRef,
  empty_object, err, ok, plain, re_entered_state, resource_version_missing, status, status_unknown,
  wrap,
}
use achilles_sdk.Fsm.Machine.{Machine, TransitionFunc}
use achilles_sdk.Fsm.Reconciler.{Reconciler, default_create_func}
use achilles_sdk.Fsm.Types.Result.{done_and_requeue_result}
use achilles_sdk.Meta.{suspend_key}
use achilles_sdk.Prelude.{
  Bool, List, String, [], false, nat_eq, none, some, string_eq, true, ◌==◌, ◌∷◌,
}

abbrev pub config_gvk : Gvk
config_gvk = record { group = ""; version = "v1"; kind = "ConfigMap" }

abbrev pub web : Object
web = record (empty_object config_gvk) { name = "web"; uid = "1" }

abbrev pub db : Object
db = record (empty_object config_gvk) { name = "db"; uid = "2" }

-- Another object with the key of `web`.
abbrev pub other_web : Object
other_web = record (empty_object config_gvk) { name = "web"; uid = "3" }

abbrev pub web_ref : TypedObjectRef
web_ref = record { group = ""; version = "v1"; kind = "ConfigMap"; name = "web"; namespace = "" }

abbrev pub web_request : ObjectKey
web_request = record { namespace = ""; name = "web" }

abbrev pub suspended_web : Object
suspended_web = record (empty_object config_gvk) {
  name = "web";
  labels = (suspend_key, "true") ∷ [];
}

abbrev pub deleted_web : Object
deleted_web = record (empty_object config_gvk) { name = "web"; deletion_timestamp = some 7 }

abbrev pub work_condition : Condition
work_condition = record {
  type = "Work";
  status = status_unknown;
  observed_generation = 0;
  last_transition_time = 0;
  reason = "";
  message = "";
}

abbrev has_reason : String → Error → Bool
has_reason reason (status r) = r == reason
has_reason reason resource_version_missing = false
has_reason reason (re_entered_state name) = false
has_reason reason (plain text) = false
has_reason reason (wrap text e) = has_reason reason e

-- Third-party code for the runs, with the server's answers as an argument.
abbrev pub env_of : (History → Request → Try Object) → Env
env_of respond = record {
  recognizes = λ g. true;
  gvk_string = λ g. g.kind;
  object_key_string = λ k. k.name;
  ref_string = λ r. r.name;
  is_not_found = has_reason "NotFound";
  is_already_exists = has_reason "AlreadyExists";
  add_finalizer = λ o f. record o { finalizers = f ∷ o.finalizers };
  remove_finalizer = λ o f. record o { finalizers = [] };
  set_controller_reference = λ o owner. (o, none);
  set_owner_reference = λ o owner. (o, none);
  set_conditions = λ o cs. record o { conditions = cs };
  get_condition = λ o t. work_condition;
  condition_is_empty = λ c. c.type == "";
  type_ready = "Ready";
  deleting = work_condition;
  creating = work_condition;
  available = work_condition;
  to_unstructured = λ o. ok [];
  remove_nested_field = λ f n. f;
  nested_field_copy = λ f n. ok none;
  deep_equal = λ a b. false;
  deep_equal_value = λ a b. false;
  respond = respond;
  now = λ h. 0;
}

-- A server that has no objects.
abbrev pub empty_server : Env
empty_server = env_of λ h q. err (status "NotFound")

-- A server that answers every request with one object.
abbrev pub server_with : Object → Env
server_with o = env_of λ h q. ok o

-- A state that is done and asks to be run again.
abbrev pub work : TransitionFunc
work o out h = record {
  obj = o;
  out = out;
  next = none;
  result = done_and_requeue_result "again" 5;
  requests = [];
}

abbrev pub one_state : Machine
one_state = record {
  states = λ i. record { name = "work"; transition = some work; condition = work_condition };
  name = "worker";
  managed_types = config_gvk ∷ [];
  application = record {
    application_name = "app";
    application_version = "v1";
    component_name = "part";
  };
}

abbrev pub worker : Reconciler
worker = record {
  machine = one_state;
  gvk = config_gvk;
  initial_state = some 0;
  finalizer_state = some 0;
  create_if_not_found = false;
  create_func = default_create_func config_gvk;
  disable_ready_condition = false;
  condition_types = "Work" ∷ [];
}

-- Every state's name, and the name of the state of deleted objects.
abbrev pub names : List String
names = "work" ∷ "deleted" ∷ []
