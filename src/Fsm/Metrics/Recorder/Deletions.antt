-- ===== src/Fsm/Metrics/Recorder/Deletions.antt =====
-- The deletions of metrics, one by one.
use achilles_sdk.Api.{Env, Gvk, History, Object, ObjectKey, metric, delete_condition}
use achilles_sdk.Meta.{must_typed_object_ref}
use achilles_sdk.Fsm.Types.Options.{is_metric_disabled, achilles_resource_condition}
use achilles_sdk.Fsm.Reconciler.{Reconciler, delete_conditions}
use achilles_sdk.GoMap.{GoMap}
use achilles_sdk.Fsm.Metrics.BTree.{BTree}
use achilles_sdk.Fsm.Metrics.Prometheus.{MetricVecs}
use achilles_sdk.Fsm.Metrics.Labels.{ConditionGaugeLabel, condition_gauge_label_values}
use achilles_sdk.Fsm.Metrics.StartTimes.{before}
use achilles_sdk.Fsm.Metrics.Sink
use achilles_sdk.Fsm.Metrics.Sink.{Sink, statuses}
use achilles_sdk.Fsm.Metrics.Sink.Laws.{series-delete_statuses}
use achilles_sdk.Fsm.Metrics.Recorder
use achilles_sdk.Fsm.Metrics.Recorder.{Metrics}
use achilles_sdk.Fsm.Metrics.Recorder.Calls.{carry_out_all}
use achilles_sdk.Prelude.{
  Bool, List, String, [], ap, arith, contains, eq_iff, false, if◌then◌else◌, nat_eq, none, refl,
  some, string_eq, ℕ, ◌&&◌, ◌==◌, ◌∙◌, ◌∷◌, ◌≡◌,
}

-- The series is for a condition of the object that has one of the types.
abbrev pub is_condition_of : ObjectKey → Gvk → List String → ConditionGaugeLabel → Bool
is_condition_of key gvk types l =
    l.group == gvk.group
    && l.version == gvk.version
    && l.kind == gvk.kind
    && l.name == key.name
    && l.namespace == key.namespace
    && contains types l.condition_type
    && contains statuses l.status

module _ (env : Env) (p : MetricVecs) (b : BTree before) (duration now : ℕ) (r : Reconciler) where
  -- The sink `t` is `s` without the conditions' series.
  pub record WithoutConditions (key : ObjectKey) (gvk : Gvk) (types : List String) (s t : Sink p)
      : Type 0 where
    pub same_trigger : t.trigger_counter ≡ s.trigger_counter
    pub same_event : t.event_counter ≡ s.event_counter
    pub same_suspend : t.suspend_gauge ≡ s.suspend_gauge
    pub conditions_gone :
        (l : ConditionGaugeLabel)
        → p.series (condition_gauge_label_values l) t.readiness_gauge ≡ (
            if is_condition_of key gvk types l
            then none
            else p.series (condition_gauge_label_values l) s.readiness_gauge)

  module _ (obj : Object) (typed : (t : String) → (env.get_condition obj t).type ≡ t)
      (starts : GoMap Gvk b.Tree) where
    abbrev key : ObjectKey
    key = record { namespace = obj.namespace; name = obj.name }

    -- Deleting the series of one condition.
    pub one_gone :
        (type : String) (s : Sink p)
        → WithoutConditions key obj.gvk
            (type ∷ [])
            s
            (Sink.delete_condition p key obj.gvk (env.get_condition obj type) s).0
    unfolding Sink.delete_condition
    one_gone type s = record {
      same_trigger = refl;
      same_event = refl;
      same_suspend = refl;
      conditions_gone = λ l. ground (
        arith,
        series-delete_statuses p key obj.gvk (env.get_condition obj type) l statuses
            s.readiness_gauge 0,
        typed type,
        eq_iff type l.condition_type,
        eq_iff l.condition_type type,
      );
    }

    both_gone :
        (type : String) (types : List String) (s t u : Sink p)
        → WithoutConditions key obj.gvk (type ∷ []) s t
        → WithoutConditions key obj.gvk types t u
        → WithoutConditions key obj.gvk (type ∷ types) s u
    both_gone type types s t u first rest = record {
      same_trigger = rest.same_trigger ∙ first.same_trigger;
      same_event = rest.same_event ∙ first.same_event;
      same_suspend = rest.same_suspend ∙ first.same_suspend;
      conditions_gone = λ l. ground (arith, first.conditions_gone l, rest.conditions_gone l);
    }

    -- The metrics record conditions, and have a sink and start times.
    abbrev pub Records : Metrics env p b → Sink p → Type 0
    Records m s =
        (m.sink ≡ some s)
        × (is_metric_disabled m.options achilles_resource_condition ≡ false)
        × (m.processing_start_times_by_gvk ≡ starts)

    module _ (m : Metrics env p b) (s : Sink p) (records : Records m s) where
      -- A call that changes the sink by `f`.
      changed :
          (f : Sink p → Sink p) (n : Metrics env p b)
          → n ≡ record m { sink = some (f s) }
          → Records n (f s)
      changed f n e = (
        ap (λ x. x.sink) e,
        ap (λ x. is_metric_disabled x.options achilles_resource_condition) e ∙ records.1,
        ap (λ x. x.processing_start_times_by_gvk) e ∙ records.2,
      )

      pub delete_one :
          (type : String)
          → Records
              (Recorder.delete_condition env p b obj type m)
              (Sink.delete_condition p key obj.gvk (env.get_condition obj type) s).0
      unfolding Recorder.delete_condition must_typed_object_ref
      delete_one type =
          changed (λ s. (Sink.delete_condition p key obj.gvk (env.get_condition obj type) s).0)
            (Recorder.delete_condition env p b obj type m) (simp (records.0, records.1))

      pub delete_triggers :
          (name : String)
          → Records
              (Recorder.delete_trigger env p b key name m)
              (Sink.delete_trigger p key name s).0
      unfolding Recorder.delete_trigger
      delete_triggers name =
          changed (λ s. (Sink.delete_trigger p key name s).0)
            (Recorder.delete_trigger env p b key name m) (simp records.0)

      pub delete_events :
          Records (Recorder.delete_event env p b obj m) (Sink.delete_event p key obj.gvk s).0
      unfolding Recorder.delete_event must_typed_object_ref
      delete_events =
          changed (λ s. (Sink.delete_event p key obj.gvk s).0) (Recorder.delete_event env p b obj m)
            (simp records.0)

    pub delete_each_type :
        (types : List String) (h : History) (m : Metrics env p b) (s : Sink p)
        → Records (carry_out_all env p b duration now h m) s
        → (t : Sink p) × Records
            (carry_out_all env p b duration now (delete_conditions env r obj types h) m)
            t
          × WithoutConditions key obj.gvk types s t
    unfolding delete_conditions
    delete_each_type [] h m s records = (
      s,
      records,
      record {
        same_trigger = refl;
        same_event = refl;
        same_suspend = refl;
        conditions_gone = λ l. ground arith;
      },
    )
    delete_each_type (type ∷ types) h m s records =
        let first = delete_one (carry_out_all env p b duration now h m) s records type in
        let t = (Sink.delete_condition p key obj.gvk (env.get_condition obj type) s).0 in
        let rest = delete_each_type types (metric (delete_condition obj type) ∷ h) m t first in
        (rest.0, rest.1, both_gone type types s t rest.0 (one_gone type s) rest.2)
