-- ===== src/Fsm/Metrics/Recorder/Deregistered.antt =====
-- What is left of the metrics of an object that is gone.
use achilles_sdk.Api.{
  delete_event, delete_readiness, delete_trigger, Env, Object, ObjectKey, empty_object, metric,
}
use achilles_sdk.Fsm.Types.Options.{is_metric_disabled, achilles_resource_condition}
use achilles_sdk.Fsm.Reconciler.{Reconciler, deregister}
use achilles_sdk.Fsm.Metrics.BTree.{BTree}
use achilles_sdk.Fsm.Metrics.Prometheus.{MetricVecs}
use achilles_sdk.Fsm.Metrics.Labels.{
  ConditionGaugeLabel, EventCounterLabel, TriggerCounterLabel, condition_gauge_label_values,
  event_counter_label_values, trigger_counter_label_values,
}
use achilles_sdk.Fsm.Metrics.StartTimes.{before}
use achilles_sdk.Fsm.Metrics.Sink
use achilles_sdk.Fsm.Metrics.Sink.{Sink, statuses}
use achilles_sdk.Fsm.Metrics.Sink.Laws.{delete_event_lem, delete_trigger_lem}
use achilles_sdk.Fsm.Metrics.Recorder
use achilles_sdk.Fsm.Metrics.Recorder.{Metrics}
use achilles_sdk.Fsm.Metrics.Recorder.Calls.{carry_out_all}
use achilles_sdk.Prelude.{
  String, [], ap, arith, false, if◌then◌else◌, nat_eq, none, refl, some, string_eq, ℕ, ◌&&◌, ◌==◌,
  ◌∙◌, ◌∷◌, ◌≡◌,
}
use achilles_sdk.Fsm.Metrics.Recorder.Deletions.{
  WithoutConditions, delete_each_type, delete_events, delete_one, delete_triggers, is_condition_of,
  one_gone,
}

module _ (env : Env) (p : MetricVecs) (b : BTree before) (duration now : ℕ) (r : Reconciler) where
  -- The sink `t` is `s` without the triggers, the events and the conditions of an object.
  pub record Deregistered (key : ObjectKey) (s t : Sink p) : Type 0 where
    pub triggers_gone :
        (l : TriggerCounterLabel)
        → p.series (trigger_counter_label_values l) t.trigger_counter ≡ (
            if l.req_name == key.name
              && l.req_namespace == key.namespace
              && l.controller == r.machine.name
            then none
            else p.series (trigger_counter_label_values l) s.trigger_counter)
    pub events_gone :
        (l : EventCounterLabel)
        → p.series (event_counter_label_values l) t.event_counter ≡ (
            if l.group == r.gvk.group
              && l.version == r.gvk.version
              && l.kind == r.gvk.kind
              && l.obj_name == key.name
              && l.obj_namespace == key.namespace
            then none
            else p.series (event_counter_label_values l) s.event_counter)
    pub conditions_gone :
        (l : ConditionGaugeLabel)
        → p.series (condition_gauge_label_values l) t.readiness_gauge ≡ (
            if is_condition_of key r.gvk (env.type_ready ∷ r.condition_types) l
            then none
            else p.series (condition_gauge_label_values l) s.readiness_gauge)
    pub suspend_stays : t.suspend_gauge ≡ s.suspend_gauge

  -- The four deletions, one after the other.
  all_gone :
      (key : ObjectKey) (s t u v : Sink p)
      → t ≡ (Sink.delete_trigger p key r.machine.name s).0
      → WithoutConditions env p b duration now r key r.gvk (env.type_ready ∷ []) t u
      → WithoutConditions env p b duration now r key r.gvk r.condition_types
          (Sink.delete_event p key r.gvk u).0
          v
      → Deregistered key s v
  unfolding Sink.delete_event Sink.delete_trigger
  all_gone key s t u v e first rest = record {
    triggers_gone = λ l.
        ap (p.series (trigger_counter_label_values l))
          (rest.same_trigger ∙ first.same_trigger ∙ ap (λ x. x.trigger_counter) e)
        ∙ delete_trigger_lem p key r.machine.name l s;
    events_gone = λ l.
        ap (p.series (event_counter_label_values l)) rest.same_event
        ∙ delete_event_lem p key r.gvk l u
        ∙ ap
            (λ c.
              if l.group == r.gvk.group
                && l.version == r.gvk.version
                && l.kind == r.gvk.kind
                && l.obj_name == key.name
                && l.obj_namespace == key.namespace
              then none
              else p.series (event_counter_label_values l) c)
            (first.same_event ∙ ap (λ x. x.event_counter) e);
    conditions_gone = λ l. ground (
      arith,
      first.conditions_gone l,
      rest.conditions_gone l,
      ap (λ x. p.series (condition_gauge_label_values l) x.readiness_gauge) e,
    );
    suspend_stays = rest.same_suspend ∙ first.same_suspend ∙ ap (λ x. x.suspend_gauge) e;
  }

  -- When an object is gone, `reconcile` deletes the series of the triggers of the object in the
  -- controller, of its events, and of its conditions of the type "Ready" and of the configured
  -- types, and no other of those metrics; the gauge of suspended objects stays as it is, and so do
  -- the start times of the objects' processing. This holds where the metrics record conditions, and
  -- `GetCondition` returns a condition of the type that it is asked for.
  pub deregister-Deregistered :
      (req : ObjectKey) (m : Metrics env p b) (s : Sink p)
      → ((obj : Object) (t : String) → (env.get_condition obj t).type ≡ t)
      → m.sink ≡ some s
      → is_metric_disabled m.options achilles_resource_condition ≡ false
      → (t : Sink p) × ((carry_out_all env p b duration now (deregister env r req []).1 m).sink
          ≡ some t)
        × Deregistered req s t
        × ((carry_out_all env p b duration now
              (deregister env r req []).1
              m).processing_start_times_by_gvk
            ≡ m.processing_start_times_by_gvk)
  unfolding deregister Recorder.delete_readiness
  deregister-Deregistered req m s typed e d =
      let obj = record (empty_object r.gvk) { name = req.name; namespace = req.namespace } in
      let name = r.machine.name in
      let s1 = (Sink.delete_trigger p req name s).0 in
      let s2 = (Sink.delete_condition p req r.gvk (env.get_condition obj env.type_ready) s1).0 in
      let s3 = (Sink.delete_event p req r.gvk s2).0 in
      let h1 = metric (delete_trigger req name) ∷ [] in
      let h2 = metric (delete_readiness obj) ∷ h1 in
      let h3 = metric (delete_event obj) ∷ h2 in
      let starts = m.processing_start_times_by_gvk in
      let r1 =
        delete_triggers env p b duration now r obj (typed obj) starts m s (e, d, refl) name in
      let r2 =
        delete_one env p b duration now r obj (typed obj) starts
          (carry_out_all env p b duration now h1 m) s1 r1 env.type_ready in
      let r3 =
        delete_events env p b duration now r obj (typed obj) starts
          (carry_out_all env p b duration now h2 m) s2 r2 in
      let rest =
        delete_each_type env p b duration now r obj (typed obj) starts r.condition_types h3 m s3
          r3 in
      (
        rest.0,
        rest.1.0,
        all_gone req s s1 s2 rest.0 refl
            (one_gone env p b duration now r obj (typed obj) starts env.type_ready s1) rest.2,
        rest.1.2,
      )
