-- ===== src/Fsm/Handler/Laws.antt =====
-- What the event handler counts and what it forwards.
use achilles_sdk.Api.{Env, ObjectKey}
use achilles_sdk.Fsm.Metrics.BTree.{BTree}
use achilles_sdk.Fsm.Metrics.Prometheus.{MetricVecs, or_zero}
use achilles_sdk.Fsm.Metrics.Labels.{trigger_counter_label_values}
use achilles_sdk.Fsm.Metrics.StartTimes.{before}
use achilles_sdk.Fsm.Metrics.Sink
use achilles_sdk.Fsm.Metrics.Sink.{Sink}
use achilles_sdk.Fsm.Types.Options.{is_metric_disabled, achilles_resource_trigger}
use achilles_sdk.Fsm.Metrics.Recorder.{Metrics, record_trigger}
use achilles_sdk.Fsm.Handler.{
  Event, QueueCall, TriggerType, add, add_after, add_rate_limited, forget, event_name, event_object,
  trigger_type_text, ObservedQueue, handle_event, observe_request, observed_queue, on_queue,
}
use achilles_sdk.Prelude.{
  List, String, [], ap, arith, eq_iff, eq_refl, false, if◌then◌else◌, nat_eq, refl, some, string_eq,
  suc, ℕ, ◌&&◌, ◌+◌, ◌==◌, ◌∙◌, ◌∷◌, ◌≡◌,
}

-- How often the request is added.
abbrev pub additions : ObjectKey → List QueueCall → ℕ
additions req [] = 0
additions req (add item ∷ calls) =
    if item.namespace == req.namespace && item.name == req.name
    then suc (additions req calls)
    else additions req calls
additions req (add_after item d ∷ calls) = additions req calls
additions req (add_rate_limited item ∷ calls) = additions req calls
additions req (forget item ∷ calls) = additions req calls

-- The labels of a trigger of a request.
abbrev pub trigger_labels : Event → TriggerType → String → ObjectKey → List String
unfolding trigger_counter_label_values
trigger_labels e trigger_type controller_name req = trigger_counter_label_values (record {
  group = (event_object e).gvk.group;
  version = (event_object e).gvk.version;
  kind = (event_object e).gvk.kind;
  req_name = req.name;
  req_namespace = req.namespace;
  event = event_name e;
  trigger_type = trigger_type_text trigger_type;
  controller = controller_name;
})

module _ (env : Env) (p : MetricVecs) (b : BTree before) (controller_name : String) (e : Event)
    (trigger_type : TriggerType) where
  abbrev q : ObservedQueue env p b controller_name
  q = record {
    event_type = event_name e;
    trigger_gvk = (event_object e).gvk;
    trigger_type = trigger_type;
  }

  forwards :
      (calls : List QueueCall) (m : Metrics env p b)
      → (on_queue env p b controller_name q calls m).0 ≡ calls
  unfolding on_queue
  forwards [] m = refl
  forwards (add item ∷ calls) m =
      ap (λ c. add item ∷ c) (forwards calls (observe_request env p b controller_name q item m))
  forwards (add_after item d ∷ calls) m = ap (λ c. add_after item d ∷ c) (forwards calls m)
  forwards (add_rate_limited item ∷ calls) m =
      ap (λ c. add_rate_limited item ∷ c) (forwards calls m)
  forwards (forget item ∷ calls) m = ap (λ c. forget item ∷ c) (forwards calls m)

  -- The count of a trigger in a sink.
  abbrev pub triggers : ObjectKey → Sink p → ℕ
  triggers req s =
      or_zero (p.series (trigger_labels e trigger_type controller_name req) s.trigger_counter)

  -- The sink after a trigger is recorded.
  counted : ObjectKey → Sink p → Sink p
  counted item s =
      Sink.record_trigger p (event_object e).gvk item (event_name e)
        (trigger_type_text trigger_type) controller_name s

  observed :
      (item : ObjectKey) (m : Metrics env p b) (s : Sink p)
      → m.sink ≡ some s
      → is_metric_disabled m.options achilles_resource_trigger ≡ false
      → observe_request env p b controller_name q item m ≡ record m { sink = some (counted item s) }
  unfolding observe_request record_trigger counted
  observed item m s e d = simp (d, e)

  triggers-counted :
      (req item : ObjectKey) (s : Sink p)
      → triggers req (counted item s) ≡ (
          if item.namespace == req.namespace && item.name == req.name
          then suc (triggers req s)
          else triggers req s)
  unfolding counted Sink.record_trigger trigger_counter_label_values
  triggers-counted req item s =
      let labels = trigger_labels e trigger_type controller_name in
      ground (
        arith,
        p.series-inc (labels item) (labels req) s.trigger_counter refl,
        eq_iff item.name req.name,
        eq_iff item.namespace req.namespace,
        eq_refl (event_object e).gvk.group,
        eq_refl (event_object e).gvk.version,
        eq_refl (event_object e).gvk.kind,
        eq_refl (event_name e),
        eq_refl (trigger_type_text trigger_type),
        eq_refl controller_name,
      )

  counts :
      (req : ObjectKey) (calls : List QueueCall) (m : Metrics env p b) (s : Sink p)
      → m.sink ≡ some s
      → is_metric_disabled m.options achilles_resource_trigger ≡ false
      → (t : Sink p) × ((on_queue env p b controller_name q calls m).1.sink ≡ some t)
        × (triggers req t ≡ triggers req s + additions req calls)
  unfolding on_queue
  counts req [] m s e d = (s, e, ground arith)
  counts req (add item ∷ calls) m s e d =
      let seen = observed item m s e d in
      let rest =
        counts req calls (observe_request env p b controller_name q item m) (counted item s)
          (ap (λ x. x.sink) seen)
          (ap (λ x. is_metric_disabled x.options achilles_resource_trigger) seen ∙ d) in
      (rest.0, rest.1, ground (arith, rest.2, triggers-counted req item s))
  counts req (add_after item x ∷ calls) m s e d = counts req calls m s e d
  counts req (add_rate_limited item ∷ calls) m s e d = counts req calls m s e d
  counts req (forget item ∷ calls) m s e d = counts req calls m s e d

  -- The wrapped handler does with the queue exactly what the handler underneath does, and where
  -- triggers are recorded the count of the triggers of a request grows by the number of times that
  -- the handler adds it.
  pub handle_event_lem :
      (handler : Event → List QueueCall) (req : ObjectKey) (m : Metrics env p b) (s : Sink p)
      → m.sink ≡ some s
      → is_metric_disabled m.options achilles_resource_trigger ≡ false
      → ((handle_event env p b controller_name handler trigger_type e m).0 ≡ handler e)
        × ((t : Sink p) × ((handle_event env p b controller_name handler trigger_type e m).1.sink
              ≡ some t)
            × (triggers req t ≡ triggers req s + additions req (handler e)))
  unfolding handle_event observed_queue
  handle_event_lem handler req m s has_sink enabled =
      (forwards (handler e) m, counts req (handler e) m s has_sink enabled)
