-- ===== src/Fsm/Metrics/Sink/Laws.antt =====
-- What the sink's series are after its operations.
use achilles_sdk.Api.{Condition, Gvk, ObjectKey}
use achilles_sdk.Fsm.Metrics.Prometheus.{MetricVecs, same_texts}
use achilles_sdk.Fsm.Metrics.Labels.{
  ConditionGaugeLabel, TriggerCounterLabel, trigger_counter_label_values, EventCounterLabel,
  event_counter_label_values, condition_gauge_label_names, condition_gauge_label_values,
  trigger_counter_label_partial_values, event_counter_label_partial_values,
}
use achilles_sdk.Fsm.Metrics.Sink.{
  Sink, condition_labels, delete_condition, delete_event, delete_statuses, delete_trigger,
  record_condition, record_statuses, status_value, status_text, statuses, condition_deleted,
}
use achilles_sdk.Prelude.{
  Bool, List, String, [], arith, contains, eq_iff, if◌then◌else◌, length, nat_eq, none, refl, some,
  string_eq, true, ℕ, ◌&&◌, ◌+◌, ◌==◌, ◌∷◌, ◌≡◌,
}

-- The series is for the object, the type of the object and the condition.
abbrev pub is_for : ObjectKey → Gvk → Condition → ConditionGaugeLabel → Bool
is_for ref gvk c l =
    l.group == gvk.group
    && l.version == gvk.version
    && l.kind == gvk.kind
    && l.name == ref.name
    && l.namespace == ref.namespace
    && l.condition_type == c.type

module _ (ref : ObjectKey) (gvk : Gvk) (c : Condition) where
  same_labels :
      (status : String) (l : ConditionGaugeLabel)
      → same_texts (condition_labels ref gvk c status) (condition_gauge_label_values l)
        ≡ (is_for ref gvk c l && status == l.status)
  unfolding condition_labels condition_gauge_label_values
  same_labels status l = ground (
    arith,
    eq_iff gvk.group l.group,
    eq_iff l.group gvk.group,
    eq_iff gvk.version l.version,
    eq_iff l.version gvk.version,
    eq_iff gvk.kind l.kind,
    eq_iff l.kind gvk.kind,
    eq_iff ref.name l.name,
    eq_iff l.name ref.name,
    eq_iff ref.namespace l.namespace,
    eq_iff l.namespace ref.namespace,
    eq_iff c.type l.condition_type,
    eq_iff l.condition_type c.type,
  )

  seven : (status : String) → length (condition_labels ref gvk c status) ≡ 7
  unfolding condition_labels condition_gauge_label_values
  seven status = refl

module _ (p : MetricVecs) (ref : ObjectKey) (gvk : Gvk) (c : Condition)
    (l : ConditionGaugeLabel) where
  series-record_statuses :
      (deleted : Bool) (ss : List String) (gauge : p.Vec condition_gauge_label_names)
      → p.series (condition_gauge_label_values l) (record_statuses p ref gvk c deleted ss gauge) ≡ (
          if is_for ref gvk c l && contains ss l.status
          then some (status_value c deleted l.status)
          else p.series (condition_gauge_label_values l) gauge)
  unfolding record_statuses
  series-record_statuses deleted [] gauge = ground arith
  series-record_statuses deleted (s ∷ ss) gauge =
      let values = condition_labels ref gvk c s in
      let set = p.set values (status_value c deleted s) gauge in
      ground (
        arith,
        series-record_statuses deleted ss set,
        p.series-set values (condition_gauge_label_values l) (status_value c deleted s) gauge
            (seven ref gvk c s),
        same_labels ref gvk c s l,
        eq_iff s l.status,
      )

  pub series-delete_statuses :
      (ss : List String) (gauge : p.Vec condition_gauge_label_names) (n : ℕ)
      → p.series (condition_gauge_label_values l) (delete_statuses p ref gvk c ss gauge n).0 ≡ (
          if is_for ref gvk c l && contains ss l.status
          then none
          else p.series (condition_gauge_label_values l) gauge)
  unfolding delete_statuses
  series-delete_statuses [] gauge n = ground arith
  series-delete_statuses (s ∷ ss) gauge n =
      let values = condition_labels ref gvk c s in
      let deleted = p.delete_label_values values gauge in
      ground (
        arith,
        series-delete_statuses ss deleted.0 (if deleted.1 then n + 1 else n),
        p.series-delete_label_values values (condition_gauge_label_values l) gauge,
        same_labels ref gvk c s l,
        eq_iff s l.status,
      )

  -- After RecordCondition, each of the condition's four series, for "True", "False", "Unknown" and
  -- "Deleted", is 1 if its status is the condition's own, or "Deleted" for an object that is being
  -- deleted, and 0 otherwise; so all four are 0 for a status that is none of these, as the empty
  -- one. Every other series is what it was.
  pub record_condition_lem :
      (deleted : Bool) (r : Sink p)
      → p.series
          (condition_gauge_label_values l)
          (record_condition p ref gvk c deleted r).readiness_gauge
        ≡ (if is_for ref gvk c l && contains statuses l.status
            then some (
                if l.status == (if deleted then condition_deleted else status_text c.status)
                then 1
                else 0)
            else p.series (condition_gauge_label_values l) r.readiness_gauge)
  unfolding record_condition status_value
  record_condition_lem deleted r =
      ground (arith, series-record_statuses deleted statuses r.readiness_gauge)

  -- DeleteCondition undoes RecordCondition for a condition that had no series before.
  pub delete_condition-record_condition :
      (deleted : Bool) (r : Sink p)
      → (is_for ref gvk c l ≡ true
          → p.series (condition_gauge_label_values l) r.readiness_gauge ≡ none)
      → p.series
          (condition_gauge_label_values l)
          (delete_condition p ref gvk c (record_condition p ref gvk c deleted r)).0.readiness_gauge
        ≡ p.series (condition_gauge_label_values l) r.readiness_gauge
  unfolding delete_condition
  delete_condition-record_condition deleted r fresh = ground (
    arith,
    series-delete_statuses statuses (record_condition p ref gvk c deleted r).readiness_gauge 0,
    record_condition_lem deleted r,
    fresh,
  )

module _ (p : MetricVecs) where
  -- DeleteTrigger for an object and a controller deletes the series of the triggers of that object
  -- in that controller, whatever triggered it, and no other.
  pub delete_trigger_lem :
      (key : ObjectKey) (controller : String) (l : TriggerCounterLabel) (r : Sink p)
      → p.series
          (trigger_counter_label_values l)
          (delete_trigger p key controller r).0.trigger_counter
        ≡ (if l.req_name == key.name
              && l.req_namespace == key.namespace
              && l.controller == controller
            then none
            else p.series (trigger_counter_label_values l) r.trigger_counter)
  unfolding delete_trigger trigger_counter_label_values trigger_counter_label_partial_values
  delete_trigger_lem key controller l r = ground (
    arith,
    p.series-delete_partial_match
        (("reqName", key.name) ∷ ("reqNamespace", key.namespace) ∷ ("controller", controller) ∷ [])
        (trigger_counter_label_values l) r.trigger_counter,
  )

  -- DeleteEvent for an object of a type deletes the series of its events, of every controller that
  -- reported one, and no other.
  pub delete_event_lem :
      (key : ObjectKey) (gvk : Gvk) (l : EventCounterLabel) (r : Sink p)
      → p.series (event_counter_label_values l) (delete_event p key gvk r).0.event_counter ≡ (
          if l.group == gvk.group
            && l.version == gvk.version
            && l.kind == gvk.kind
            && l.obj_name == key.name
            && l.obj_namespace == key.namespace
          then none
          else p.series (event_counter_label_values l) r.event_counter)
  unfolding delete_event event_counter_label_values event_counter_label_partial_values
  delete_event_lem key gvk l r = ground (
    arith,
    p.series-delete_partial_match
        (("group", gvk.group)
          ∷ ("version", gvk.version)
          ∷ ("kind", gvk.kind)
          ∷ ("objName", key.name)
          ∷ ("objNamespace", key.namespace)
          ∷ [])
        (event_counter_label_values l) r.event_counter,
  )
