-- ===== src/Fsm/Handler.antt =====
-- pkg/fsm/handler: the predicate and the event handler that count what triggers a controller. What
-- they log is left out.
pub mod Laws
use achilles_sdk.Api.{Env, Gvk, Object, ObjectKey, object_key}
use achilles_sdk.Fsm.Metrics.BTree.{BTree}
use achilles_sdk.Fsm.Metrics.Prometheus.{MetricVecs}
use achilles_sdk.Fsm.Metrics.StartTimes.{before}
use achilles_sdk.Fsm.Metrics.Recorder.{Metrics, record_processing_start, record_trigger}
use achilles_sdk.Prelude.{
  Bool, List, String, [], if◌then◌else◌, nat_eq, string_eq, true, ℕ, ◌==◌, ◌||◌, ◌∷◌,
}

-- TriggerType, with its text
pub data TriggerType : Type 0 where
  trigger_type_self trigger_type_child trigger_type_relative : TriggerType

abbrev pub trigger_type_text : TriggerType → String
trigger_type_text trigger_type_self = "self"
trigger_type_text trigger_type_child = "child"
trigger_type_text trigger_type_relative = "relative"

-- The events of controller-runtime; an update has the old object and the new one.
pub data Event : Type 0 where
  create_event : Object → Event
  update_event : Object → Object → Event
  delete_event : Object → Event
  generic_event : Object → Event

-- The event's name in the metrics, and the object that it is about.
abbrev pub event_name : Event → String
event_name (create_event o) = "create"
event_name (update_event old new) = "update"
event_name (delete_event o) = "delete"
event_name (generic_event o) = "generic"

abbrev pub event_object : Event → Object
event_object (create_event o) = o
event_object (update_event old new) = new
event_object (delete_event o) = o
event_object (generic_event o) = o

-- What an event handler does with the work queue.
pub data QueueCall : Type 0 where
  add : ObjectKey → QueueCall
  add_after : ObjectKey → ℕ → QueueCall
  add_rate_limited : ObjectKey → QueueCall
  forget : ObjectKey → QueueCall

module _ (env : Env) (p : MetricVecs) (b : BTree before) (controller_name : String) where
  -- An error is logged.
  unfoldable pub mark_processing_start_time :
      ObjectKey → ℕ → Gvk → ℕ → Metrics env p b → Metrics env p b
  mark_processing_start_time ref gen gvk now m =
      (record_processing_start env p b gvk ref gen now m).0

  -- ForObservePredicate.observeEvent
  unfoldable pub observe_own_event : String → Object → ℕ → Metrics env p b → Metrics env p b
  unfolding mark_processing_start_time
  observe_own_event event_type o now m =
      let m' =
        record_trigger env p b o.gvk (object_key o) event_type (trigger_type_text trigger_type_self)
          controller_name m in
      if event_type == "create" || event_type == "update"
      then mark_processing_start_time (object_key o) o.generation o.gvk now m'
      else m'

  -- The methods Create, Update, Delete and Generic of ForObservePredicate, which accept each event.
  unfoldable pub predicate : Event → ℕ → Metrics env p b → Bool × Metrics env p b
  unfolding observe_own_event
  predicate e now m = (true, observe_own_event (event_name e) (event_object e) now m)

  -- observedQueue: the name of the event, the type of the object that triggered it.
  pub record ObservedQueue : Type 0 where
    pub event_type : String
    pub trigger_gvk : Gvk
    pub trigger_type : TriggerType

  -- ObservedEventHandler.observedQueue
  unfoldable pub observed_queue : TriggerType → Event → ObservedQueue
  observed_queue trigger_type e = record {
    event_type = event_name e;
    trigger_gvk = (event_object e).gvk;
    trigger_type = trigger_type;
  }

  -- observedQueue.observeEvent
  unfoldable pub observe_request : ObservedQueue → ObjectKey → Metrics env p b → Metrics env p b
  observe_request q req m =
      record_trigger env p b q.trigger_gvk req q.event_type (trigger_type_text q.trigger_type)
        controller_name m

  -- The calls that reach the queue underneath: observedQueue has its own Add, and passes the other
  -- methods on.
  unfoldable pub on_queue :
      ObservedQueue → List QueueCall → Metrics env p b → List QueueCall × Metrics env p b
  unfolding observe_request
  on_queue q [] m = ([], m)
  on_queue q (add item ∷ calls) m =
      let (forwarded, m') = on_queue q calls (observe_request q item m) in
      (add item ∷ forwarded, m')
  on_queue q (add_after item d ∷ calls) m =
      let (forwarded, m') = on_queue q calls m in (add_after item d ∷ forwarded, m')
  on_queue q (add_rate_limited item ∷ calls) m =
      let (forwarded, m') = on_queue q calls m in (add_rate_limited item ∷ forwarded, m')
  on_queue q (forget item ∷ calls) m =
      let (forwarded, m') = on_queue q calls m in (forget item ∷ forwarded, m')

  -- The methods Create, Update, Delete and Generic of ObservedEventHandler. `handler` is the handler
  -- underneath, by what it does with the queue that it is given.
  unfoldable pub handle_event :
      (Event → List QueueCall)
      → TriggerType
      → Event
      → Metrics env p b
      → List QueueCall × Metrics env p b
  unfolding observed_queue on_queue
  handle_event handler trigger_type e m = on_queue (observed_queue trigger_type e) (handler e) m
