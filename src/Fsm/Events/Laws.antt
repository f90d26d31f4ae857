-- ===== src/Fsm/Events/Laws.antt =====
-- The count of an event, and its deletion with the object.
use achilles_sdk.Api.{Env, Gvk, Object, gvk_eq, object_key}
use achilles_sdk.Meta.{must_typed_object_ref}
use achilles_sdk.Fsm.Metrics.BTree.{BTree}
use achilles_sdk.Fsm.Metrics.Prometheus.{MetricVecs, or_zero, same_texts_refl}
use achilles_sdk.Fsm.Metrics.Labels.{EventCounterLabel, event_counter_label_values}
use achilles_sdk.Fsm.Metrics.StartTimes.{before}
use achilles_sdk.Fsm.Metrics.Sink
use achilles_sdk.Fsm.Metrics.Sink.{Sink}
use achilles_sdk.Fsm.Metrics.Sink.Laws.{delete_event_lem}
use achilles_sdk.Fsm.Metrics.Recorder
use achilles_sdk.Fsm.Metrics.Recorder.{Metrics}
use achilles_sdk.Fsm.Events.{EventRecorder, count_event, event_type_normal, record_event}
use achilles_sdk.Prelude.{
  String, arith, eq_refl, if◌then◌else◌, length, nat_eq, none, refl, some, string_eq, suc, ◌==◌,
  ◌≡◌,
}

module _ (env : Env) (p : MetricVecs) (b : BTree before) (type_meta : Object → Gvk) where
  -- The label of the events that `obj` has for a reason.
  abbrev pub event_label : Object → String → String → EventCounterLabel
  event_label obj reason controller_name = record {
    group = (type_meta obj).group;
    version = (type_meta obj).version;
    kind = (type_meta obj).kind;
    obj_name = obj.name;
    obj_namespace = obj.namespace;
    event_type = event_type_normal;
    reason = reason;
    controller = controller_name;
  }

  eight :
      (obj : Object) (reason controller_name : String)
      → length (event_counter_label_values (event_label obj reason controller_name)) ≡ 8
  unfolding event_counter_label_values
  eight obj reason controller_name = refl

  counted : Object → String → String → Sink p → Sink p
  counted obj reason controller_name s =
      Sink.record_event p (type_meta obj) obj.name obj.namespace event_type_normal reason
        controller_name s

  series-counted :
      (obj : Object) (reason controller_name : String) (s : Sink p)
      → p.series
          (event_counter_label_values (event_label obj reason controller_name))
          (counted obj reason controller_name s).event_counter
        ≡ some (
            suc (
              or_zero (
                p.series
                  (event_counter_label_values (event_label obj reason controller_name))
                  s.event_counter)))
  unfolding counted Sink.record_event
  series-counted obj reason controller_name s =
      let values = event_counter_label_values (event_label obj reason controller_name) in
      ground (
        arith,
        p.series-inc values values s.event_counter (eight obj reason controller_name),
        same_texts_refl values,
      )

  -- The series of an event of the object that was recorded and whose object's events were then
  -- deleted: it is gone if the object names its own type as the scheme does, and otherwise it stays.
  pub delete_event-record_event :
      (obj : Object) (reason message : String) (e : EventRecorder env p b type_meta)
      (m : Metrics env p b) (s : Sink p)
      → e.metrics ≡ some m
      → m.sink ≡ some s
      → (n : Metrics env p b) × (t : Sink p) × ((record_event env p b type_meta obj reason message
            e).metrics
          ≡ some n)
        × ((Recorder.delete_event env p b obj n).sink ≡ some t)
        × (p.series
              (event_counter_label_values (event_label obj reason e.controller_name))
              t.event_counter
            ≡ (if type_meta obj == obj.gvk
                then none
                else some (
                    suc (
                      or_zero (
                        p.series
                          (event_counter_label_values (event_label obj reason e.controller_name))
                          s.event_counter)))))
  unfolding counted record_event count_event Recorder.record_event Recorder.delete_event
      must_typed_object_ref
  delete_event-record_event obj reason message e m s with_metrics with_sink =
      let t = counted obj reason e.controller_name s in
      (
        record m { sink = some t },
        (Sink.delete_event p (object_key obj) obj.gvk t).0,
        simp (with_metrics, with_sink),
        refl,
        ground (
          arith,
          delete_event_lem p (object_key obj) obj.gvk (event_label obj reason e.controller_name) t,
          series-counted obj reason e.controller_name s,
          eq_refl obj.name,
          eq_refl obj.namespace,
        ),
      )
