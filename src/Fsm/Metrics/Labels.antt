-- ===== src/Fsm/Metrics/Labels.antt =====
-- pkg/fsm/metrics/types.go: the labels of the metrics. `names()` and `values()` list them in one
-- order, the second for the values of a record.
use achilles_sdk.GoMap.{GoMap}
use achilles_sdk.Prelude.{List, String, [], nat_eq, string_eq, ◌∷◌}

pub record ConditionGaugeLabel : Type 0 where
  pub group : String
  pub version : String
  pub kind : String
  pub name : String
  pub namespace : String
  pub condition_type : String
  pub status : String

abbrev pub condition_gauge_label_names : List String
condition_gauge_label_names =
    "group" ∷ "version" ∷ "kind" ∷ "name" ∷ "namespace" ∷ "type" ∷ "status" ∷ []

unfoldable pub condition_gauge_label_values : ConditionGaugeLabel → List String
condition_gauge_label_values c =
    c.group ∷ c.version ∷ c.kind ∷ c.name ∷ c.namespace ∷ c.condition_type ∷ c.status ∷ []

pub record TriggerCounterLabel : Type 0 where
  pub group : String
  pub version : String
  pub kind : String
  pub req_name : String
  pub req_namespace : String
  pub event : String
  pub trigger_type : String
  pub controller : String

abbrev pub trigger_counter_label_names : List String
trigger_counter_label_names =
    "group" ∷ "version" ∷ "kind" ∷ "reqName" ∷ "reqNamespace" ∷ "event" ∷ "type" ∷ "controller" ∷ []

unfoldable pub trigger_counter_label_values : TriggerCounterLabel → List String
trigger_counter_label_values c =
    c.group ∷ c.version ∷ c.kind ∷ c.req_name ∷ c.req_namespace ∷ c.event ∷ c.trigger_type
    ∷ c.controller ∷ []

-- `partialValues`
unfoldable pub trigger_counter_label_partial_values : TriggerCounterLabel → GoMap String String
trigger_counter_label_partial_values c =
    ("reqName", c.req_name) ∷ ("reqNamespace", c.req_namespace) ∷ ("controller", c.controller) ∷ []

pub record StateDurationHistogramLabel : Type 0 where
  pub group : String
  pub version : String
  pub kind : String
  pub state : String

abbrev pub state_duration_histogram_label_names : List String
state_duration_histogram_label_names = "group" ∷ "version" ∷ "kind" ∷ "state" ∷ []

unfoldable pub state_duration_histogram_label_values : StateDurationHistogramLabel → List String
state_duration_histogram_label_values c = c.group ∷ c.version ∷ c.kind ∷ c.state ∷ []

pub record SuspendGaugeLabel : Type 0 where
  pub group : String
  pub version : String
  pub kind : String
  pub name : String
  pub namespace : String

abbrev pub suspend_gauge_label_names : List String
suspend_gauge_label_names = "group" ∷ "version" ∷ "kind" ∷ "name" ∷ "namespace" ∷ []

unfoldable pub suspend_gauge_label_values : SuspendGaugeLabel → List String
suspend_gauge_label_values c = c.group ∷ c.version ∷ c.kind ∷ c.name ∷ c.namespace ∷ []

pub record ProcessingDurationHistogramLabel : Type 0 where
  pub group : String
  pub version : String
  pub kind : String
  pub success : String

abbrev pub processing_duration_histogram_label_names : List String
processing_duration_histogram_label_names = "group" ∷ "version" ∷ "kind" ∷ "success" ∷ []

unfoldable pub processing_duration_histogram_label_values :
    ProcessingDurationHistogramLabel → List String
processing_duration_histogram_label_values c = c.group ∷ c.version ∷ c.kind ∷ c.success ∷ []

pub record EventCounterLabel : Type 0 where
  pub group : String
  pub version : String
  pub kind : String
  pub obj_name : String
  pub obj_namespace : String
  pub event_type : String
  pub reason : String
  pub controller : String

abbrev pub event_counter_label_names : List String
event_counter_label_names =
    "group" ∷ "version" ∷ "kind" ∷ "objName" ∷ "objNamespace" ∷ "eventType" ∷ "reason"
    ∷ "controller" ∷ []

unfoldable pub event_counter_label_values : EventCounterLabel → List String
event_counter_label_values c =
    c.group ∷ c.version ∷ c.kind ∷ c.obj_name ∷ c.obj_namespace ∷ c.event_type ∷ c.reason
    ∷ c.controller ∷ []

-- `partialValues`
unfoldable pub event_counter_label_partial_values : EventCounterLabel → GoMap String String
event_counter_label_partial_values c =
    ("group", c.group)
    ∷ ("version", c.version)
    ∷ ("kind", c.kind)
    ∷ ("objName", c.obj_name)
    ∷ ("objNamespace", c.obj_namespace)
    ∷ []
