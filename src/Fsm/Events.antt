-- ===== src/Fsm/Events.antt =====
-- pkg/fsm/events/events.go: the recorder that reports an event of an object to Kubernetes and counts
-- it. client-go's recorder is what it is asked to report. A nil `metrics` is `none`.
pub mod Laws
use achilles_sdk.Api.{Env, Gvk, Object}
use achilles_sdk.Fsm.Metrics.BTree.{BTree}
use achilles_sdk.Fsm.Metrics.Prometheus.{MetricVecs}
use achilles_sdk.Fsm.Metrics.StartTimes.{before}
use achilles_sdk.Fsm.Metrics.Recorder
use achilles_sdk.Fsm.Metrics.Recorder.{Metrics}
use achilles_sdk.Prelude.{
  List, Option, String, if◌then◌else◌, nat_eq, none, some, string_eq, ◌==◌, ◌∷◌,
}

abbrev pub event_ready_reason : String
event_ready_reason = "Ready"

abbrev pub event_type_normal : String
event_type_normal = "Normal"

abbrev pub event_type_warning : String
event_type_warning = "Warning"

-- `recorder.Event(obj, type, reason, message)`
pub record Report : Type 0 where
  pub obj : Object
  pub type : String
  pub reason : String
  pub message : String

-- `type_meta` is `obj.GetObjectKind().GroupVersionKind()`, the type that stands in the object itself.
module _ (env : Env) (p : MetricVecs) (b : BTree before) (type_meta : Object → Gvk) where
  pub record EventRecorder : Type 0 where
    pub recorder : List Report  -- the latest first
    pub metrics : Option (Metrics env p b)
    pub controller_name : String

  -- The counting, if there are metrics.
  unfoldable pub count_event :
      Object → String → String → String → Option (Metrics env p b) → Option (Metrics env p b)
  count_event obj type reason controller_name none = none
  count_event obj type reason controller_name (some m) = some (
      Recorder.record_event env p b (type_meta obj) obj.name obj.namespace type reason
        controller_name m)

  abbrev pub report : Object → String → String → String → EventRecorder → EventRecorder
  unfolding count_event
  report obj type reason message e = record e {
    recorder = record { obj = obj; type = type; reason = reason; message = message } ∷ e.recorder;
    metrics = count_event obj type reason e.controller_name e.metrics;
  }

  unfoldable pub record_ready : Object → String → EventRecorder → EventRecorder
  record_ready obj message e =
      report obj event_type_normal event_ready_reason
        (if message == "" then "Object is ready" else message) e

  unfoldable pub record_warning : Object → String → String → EventRecorder → EventRecorder
  record_warning obj reason message e = report obj event_type_warning reason message e

  unfoldable pub record_event : Object → String → String → EventRecorder → EventRecorder
  record_event obj reason message e = report obj event_type_normal reason message e
