-- ===== src/Fsm/Metrics/Sink.antt =====
-- pkg/fsm/metrics/sink.go: the metrics of all controllers. A duration is a number; the help texts
-- and the buckets of the vectors are left out.
pub mod Laws
use achilles_sdk.Api.{Condition, ConditionStatus, Gvk, ObjectKey}
use achilles_sdk.Fsm.Metrics.Prometheus.{MetricVecs}
use achilles_sdk.Fsm.Metrics.Labels.{
  ConditionGaugeLabel, condition_gauge_label_names, condition_gauge_label_values,
  TriggerCounterLabel, trigger_counter_label_names, trigger_counter_label_values,
  trigger_counter_label_partial_values, StateDurationHistogramLabel,
  state_duration_histogram_label_names, state_duration_histogram_label_values, SuspendGaugeLabel,
  suspend_gauge_label_names, suspend_gauge_label_values, ProcessingDurationHistogramLabel,
  processing_duration_histogram_label_names, processing_duration_histogram_label_values,
  EventCounterLabel, event_counter_label_names, event_counter_label_values,
  event_counter_label_partial_values,
}
use achilles_sdk.Prelude.{
  Bool, List, String, [], false, if◌then◌else◌, nat_eq, string_eq, true, ℕ, ◌+◌, ◌==◌, ◌∷◌,
}

abbrev pub condition_deleted : String
condition_deleted = "Deleted"

-- `string(condition.Status)`
abbrev pub status_text : ConditionStatus → String
status_text status = status

-- The statuses that RecordCondition and DeleteCondition go through.
abbrev pub statuses : List String
statuses = "True" ∷ "False" ∷ "Unknown" ∷ condition_deleted ∷ []

-- `strconv.FormatBool`
abbrev pub format_bool : Bool → String
format_bool true = "true"
format_bool false = "false"

-- The labels that the two put together for a status.
unfoldable pub condition_labels : ObjectKey → Gvk → Condition → String → List String
unfolding condition_gauge_label_values
condition_labels ref gvk condition status = condition_gauge_label_values (record {
  group = gvk.group;
  version = gvk.version;
  kind = gvk.kind;
  name = ref.name;
  namespace = ref.namespace;
  condition_type = condition.type;
  status = status;
})

-- The value of the series of a status.
unfoldable pub status_value : Condition → Bool → String → ℕ
status_value condition deleted status =
    if deleted
    then if status == condition_deleted then 1 else 0
    else if status == status_text condition.status
    then 1
    else 0

module _ (p : MetricVecs) where
  pub record Sink : Type 0 where
    pub readiness_gauge : p.Vec condition_gauge_label_names
    pub trigger_counter : p.Vec trigger_counter_label_names
    pub state_duration_histogram : p.Vec state_duration_histogram_label_names
    pub suspend_gauge : p.Vec suspend_gauge_label_names
    pub processing_duration_histogram : p.Vec processing_duration_histogram_label_names
    pub event_counter : p.Vec event_counter_label_names

  unfoldable pub new_sink : Sink
  new_sink = record {
    readiness_gauge = p.new condition_gauge_label_names;
    trigger_counter = p.new trigger_counter_label_names;
    state_duration_histogram = p.new state_duration_histogram_label_names;
    suspend_gauge = p.new suspend_gauge_label_names;
    processing_duration_histogram = p.new processing_duration_histogram_label_names;
    event_counter = p.new event_counter_label_names;
  }

  unfoldable pub reset : Sink → Sink
  reset r = record {
    readiness_gauge = p.reset r.readiness_gauge;
    trigger_counter = p.reset r.trigger_counter;
    state_duration_histogram = p.reset r.state_duration_histogram;
    suspend_gauge = p.reset r.suspend_gauge;
    processing_duration_histogram = p.reset r.processing_duration_histogram;
    event_counter = p.reset r.event_counter;
  }

  -- The loop of RecordCondition over the statuses.
  unfoldable pub record_statuses :
      ObjectKey
      → Gvk
      → Condition
      → Bool
      → List String
      → p.Vec condition_gauge_label_names
      → p.Vec condition_gauge_label_names
  unfolding condition_labels status_value
  record_statuses ref gvk condition deleted [] gauge = gauge
  record_statuses ref gvk condition deleted (status ∷ rest) gauge =
      record_statuses ref gvk condition deleted rest (
        p.set (condition_labels ref gvk condition status) (status_value condition deleted status)
          gauge)

  unfoldable pub record_condition : ObjectKey → Gvk → Condition → Bool → Sink → Sink
  unfolding record_statuses
  record_condition ref gvk condition deleted r = record r {
    readiness_gauge = record_statuses ref gvk condition deleted statuses r.readiness_gauge;
  }

  -- The loop of DeleteCondition over the statuses, with the number of series deleted.
  unfoldable pub delete_statuses :
      ObjectKey
      → Gvk
      → Condition
      → List String
      → p.Vec condition_gauge_label_names
      → ℕ
      → p.Vec condition_gauge_label_names × ℕ
  unfolding condition_labels
  delete_statuses ref gvk condition [] gauge num_deleted = (gauge, num_deleted)
  delete_statuses ref gvk condition (status ∷ rest) gauge num_deleted =
      let (gauge', deleted) =
        p.delete_label_values (condition_labels ref gvk condition status) gauge in
      delete_statuses ref gvk condition rest gauge'
        (if deleted then num_deleted + 1 else num_deleted)

  unfoldable pub delete_condition : ObjectKey → Gvk → Condition → Sink → Sink × ℕ
  unfolding delete_statuses
  delete_condition ref gvk condition r =
      let (gauge, num_deleted) = delete_statuses ref gvk condition statuses r.readiness_gauge 0 in
      (record r { readiness_gauge = gauge }, num_deleted)

  unfoldable pub record_trigger : Gvk → ObjectKey → String → String → String → Sink → Sink
  unfolding trigger_counter_label_values
  record_trigger trigger_gvk request_obj_key event trigger_type controller_name r = record r {
    trigger_counter =
        p.inc
          (trigger_counter_label_values (record {
            group = trigger_gvk.group;
            version = trigger_gvk.version;
            kind = trigger_gvk.kind;
            req_name = request_obj_key.name;
            req_namespace = request_obj_key.namespace;
            event = event;
            trigger_type = trigger_type;
            controller = controller_name;
          }))
          r.trigger_counter;
  }

  unfoldable pub delete_trigger : ObjectKey → String → Sink → Sink × ℕ
  unfolding trigger_counter_label_partial_values
  delete_trigger request_obj_key controller_name r =
      let (counter, num_deleted) =
        p.delete_partial_match
          (trigger_counter_label_partial_values (record {
            group = "";
            version = "";
            kind = "";
            req_name = request_obj_key.name;
            req_namespace = request_obj_key.namespace;
            event = "";
            trigger_type = "";
            controller = controller_name;
          }))
          r.trigger_counter in
      (record r { trigger_counter = counter }, num_deleted)

  unfoldable pub record_state_duration : Gvk → String → ℕ → Sink → Sink
  unfolding state_duration_histogram_label_values
  record_state_duration gvk state duration r = record r {
    state_duration_histogram =
        p.observe
          (state_duration_histogram_label_values
            (record { group = gvk.group; version = gvk.version; kind = gvk.kind; state = state }))
          duration r.state_duration_histogram;
  }

  unfoldable pub record_suspend : ObjectKey → Gvk → Bool → Sink → Sink
  unfolding suspend_gauge_label_values
  record_suspend ref gvk suspended r = record r {
    suspend_gauge =
        p.set
          (suspend_gauge_label_values (record {
            group = gvk.group;
            version = gvk.version;
            kind = gvk.kind;
            name = ref.name;
            namespace = ref.namespace;
          }))
          (if suspended then 1 else 0) r.suspend_gauge;
  }

  unfoldable pub record_processing_duration : Gvk → ℕ → Bool → Sink → Sink
  unfolding processing_duration_histogram_label_values
  record_processing_duration gvk duration success r = record r {
    processing_duration_histogram =
        p.observe
          (processing_duration_histogram_label_values (record {
            group = gvk.group;
            version = gvk.version;
            kind = gvk.kind;
            success = format_bool success;
          }))
          duration r.processing_duration_histogram;
  }

  unfoldable pub record_event : Gvk → String → String → String → String → String → Sink → Sink
  unfolding event_counter_label_values
  record_event object_gvk object_name object_namespace event_type reason controller_name r =
      record r {
        event_counter =
            p.inc
              (event_counter_label_values (record {
                group = object_gvk.group;
                version = object_gvk.version;
                kind = object_gvk.kind;
                obj_name = object_name;
                obj_namespace = object_namespace;
                event_type = event_type;
                reason = reason;
                controller = controller_name;
              }))
              r.event_counter;
      }

  unfoldable pub delete_event : ObjectKey → Gvk → Sink → Sink × ℕ
  unfolding event_counter_label_partial_values
  delete_event ref gvk r =
      let (counter, num_deleted) =
        p.delete_partial_match
          (event_counter_label_partial_values (record {
            group = gvk.group;
            version = gvk.version;
            kind = gvk.kind;
            obj_name = ref.name;
            obj_namespace = ref.namespace;
            event_type = "";
            reason = "";
            controller = "";
          }))
          r.event_counter in
      (record r { event_counter = counter }, num_deleted)
