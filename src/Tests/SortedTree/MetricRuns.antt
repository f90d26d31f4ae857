-- ===== src/Tests/SortedTree/MetricRuns.antt =====
-- Runs of pkg/fsm/metrics, pkg/fsm/handler and pkg/fsm/events.
use achilles_sdk.GoMap
use achilles_sdk.Api.{Condition, Env, Gvk, Object, ObjectKey, gvk_eq}
use achilles_sdk.Fsm.Reconciler.{deregister}
use achilles_sdk.Fsm.Types.Options.{
  MetricsOptions, is_metric_disabled, achilles_processing_duration, achilles_resource_condition,
  achilles_resource_trigger,
}
use achilles_sdk.Fsm.Metrics.Labels.{
  ConditionGaugeLabel, condition_gauge_label_values, event_counter_label_values,
}
use achilles_sdk.Fsm.Metrics.Sink
use achilles_sdk.Fsm.Metrics.Sink.{Sink, condition_deleted, new_sink, statuses, status_text}
use achilles_sdk.Fsm.Metrics.Sink.Laws.{is_for, record_condition_lem}
use achilles_sdk.Fsm.Metrics.Recorder
use achilles_sdk.Fsm.Metrics.Recorder.{
  Metrics, must_make_metrics_with_options, record_processing_duration, record_processing_start,
}
use achilles_sdk.Fsm.Metrics.Recorder.Laws.{observed}
use achilles_sdk.Fsm.Metrics.Recorder.Counted.{success_is_counted}
use achilles_sdk.Fsm.Metrics.Recorder.Calls.{carry_out_all}
use achilles_sdk.Fsm.Metrics.Recorder.Deregistered.{Deregistered, deregister-Deregistered}
use achilles_sdk.Fsm.Handler.{Event, QueueCall, add, create_event, handle_event, trigger_type_self}
use achilles_sdk.Fsm.Handler.Laws.{additions, handle_event_lem, triggers}
use achilles_sdk.Fsm.Events.{EventRecorder, record_event}
use achilles_sdk.Fsm.Events.Laws.{delete_event-record_event, event_label}
use achilles_sdk.Fsm.Metrics.Prometheus.{or_zero}
use achilles_sdk.Tests.World.{config_gvk, empty_server, web, web_request, work_condition, worker}
use achilles_sdk.Tests.SortedTree.{start_tree}
use achilles_sdk.Tests.SortedTree.StartTimeRuns.{tree, tree-IsPlainTree}
use achilles_sdk.Tests.SortedTree.Series.{series_map}
use achilles_sdk.Prelude.{
  List, String, [], contains, false, if◌then◌else◌, nat_eq, none, refl, some, string_eq, suc, true,
  ◌&&◌, ◌+◌, ◌<◌, ◌==◌, ◌∷◌, ◌≡◌,
}

-- Conditions have the type that they are asked for.
abbrev env : Env
env = record empty_server { get_condition = λ o t. record work_condition { type = t } }

abbrev sink : Sink series_map
sink = new_sink series_map

abbrev ready : Condition
ready = record work_condition { type = "Ready" }

abbrev ready_label : ConditionGaugeLabel
ready_label = record {
  group = "";
  version = "v1";
  kind = "ConfigMap";
  name = "web";
  namespace = "";
  condition_type = "Ready";
  status = "Unknown";
}

abbrev all_metrics : MetricsOptions
all_metrics = record { condition_types = []; disable_metrics = [] }

-- The start times of `tree` for one type.
abbrev metrics : Metrics env series_map start_tree
metrics = record {
  sink = some sink;
  options = all_metrics;
  processing_start_times_by_gvk = (config_gvk, tree) ∷ [];
}

enabled : (metric : String) → is_metric_disabled all_metrics metric ≡ false
unfolding is_metric_disabled
enabled metric = refl

abbrev app : ObjectKey
app = record { namespace = "team"; name = "app" }

has_tree : GoMap.lookup config_gvk metrics.processing_start_times_by_gvk ≡ some tree
unfolding GoMap.lookup
has_tree = refl

record_condition_example :
    series_map.series
      (condition_gauge_label_values ready_label)
      (Sink.record_condition series_map web_request config_gvk ready false sink).readiness_gauge
    ≡ (if is_for web_request config_gvk ready ready_label && contains statuses ready_label.status
        then some (
            if ready_label.status == (if false then condition_deleted else status_text ready.status)
            then 1
            else 0)
        else series_map.series (condition_gauge_label_values ready_label) sink.readiness_gauge)
record_condition_example =
    record_condition_lem series_map web_request config_gvk ready ready_label false sink

success_is_counted_example :
    (after : Sink series_map) × ((record_processing_duration env series_map start_tree config_gvk
        app 12 true 20
        (record_processing_start env series_map start_tree config_gvk app 12 15 metrics).0).0.sink
      ≡ some after)
    × (observed env series_map start_tree config_gvk true sink
        < observed env series_map start_tree config_gvk true after)
success_is_counted_example =
    success_is_counted env series_map start_tree config_gvk app 12 15 20 metrics sink tree
      (refl, refl) tree-IsPlainTree refl (enabled achilles_processing_duration) has_tree

deregister-Deregistered_example :
    (t : Sink series_map) × ((carry_out_all env series_map start_tree 1 2
        (deregister env worker web_request []).1
        metrics).sink
      ≡ some t)
    × Deregistered env series_map start_tree 1 2 worker web_request sink t
    × ((carry_out_all env series_map start_tree 1 2
          (deregister env worker web_request []).1
          metrics).processing_start_times_by_gvk
        ≡ metrics.processing_start_times_by_gvk)
deregister-Deregistered_example =
    deregister-Deregistered env series_map start_tree 1 2 worker web_request metrics sink
      (λ o t. refl) refl (enabled achilles_resource_condition)

-- A handler that adds the object of the event twice.
abbrev twice : Event → List QueueCall
twice e = add web_request ∷ add web_request ∷ []

handle_event_example :
    ((handle_event env series_map start_tree "worker" twice trigger_type_self
        (create_event web)
        metrics).0
      ≡ twice (create_event web))
    × ((t : Sink series_map) × ((handle_event env series_map start_tree "worker" twice
            trigger_type_self
            (create_event web)
            metrics).1.sink
          ≡ some t)
        × (triggers env series_map start_tree "worker"
              (create_event web)
              trigger_type_self
              web_request
              t
            ≡ triggers env series_map start_tree "worker"
                (create_event web)
                trigger_type_self
                web_request
                sink
              + additions web_request (twice (create_event web))))
handle_event_example =
    handle_event_lem env series_map start_tree "worker" (create_event web) trigger_type_self twice
      web_request metrics sink refl (enabled achilles_resource_trigger)

-- Client libraries leave the type of a typed object empty.
abbrev no_type_meta : Object → Gvk
no_type_meta o = record { group = ""; version = ""; kind = "" }

abbrev recorder : EventRecorder env series_map start_tree no_type_meta
recorder = record { recorder = []; metrics = some metrics; controller_name = "worker" }

delete_event-record_event_example :
    (n : Metrics env series_map start_tree) × (t : Sink series_map) × ((record_event env series_map
        start_tree no_type_meta web "Synced" "done" recorder).metrics
      ≡ some n)
    × ((Recorder.delete_event env series_map start_tree web n).sink ≡ some t)
    × (series_map.series
          (event_counter_label_values
            (event_label env series_map start_tree no_type_meta web "Synced" "worker"))
          t.event_counter
        ≡ (if no_type_meta web == config_gvk
            then none
            else some (
                suc (
                  or_zero (
                    series_map.series
                      (event_counter_label_values
                        (event_label env series_map start_tree no_type_meta web "Synced" "worker"))
                      sink.event_counter)))))
delete_event-record_event_example =
    delete_event-record_event env series_map start_tree no_type_meta web "Synced" "done" recorder
      metrics sink refl refl
