-- ===== src/Fsm/Metrics/Recorder.antt =====
-- pkg/fsm/metrics/metrics.go: what the controllers call to record a metric. The answer of the clock
-- is an argument, and no start time is after it. A sink that is nil is `none`.
pub mod Laws
pub mod Counted
pub mod Calls
pub mod Deletions
pub mod Deregistered
use achilles_sdk.GoMap
use achilles_sdk.GoMap.{GoMap}
use achilles_sdk.Api.{Env, Error, Gvk, Object, ObjectKey, gvk_eq, plain, ref_gvk, ref_key}
use achilles_sdk.Meta.{must_typed_object_ref, was_deleted}
use achilles_sdk.Fsm.Types.Options.{
  MetricsOptions, is_metric_disabled, achilles_resource_readiness, achilles_resource_trigger,
  achilles_resource_condition, achilles_state_duration, achilles_suspend,
  achilles_processing_duration,
}
use achilles_sdk.Fsm.Metrics.BTree.{BTree}
use achilles_sdk.Fsm.Metrics.Prometheus.{MetricVecs}
use achilles_sdk.Fsm.Metrics.StartTimes.{before}
use achilles_sdk.Fsm.Metrics.StartTimes
use achilles_sdk.Fsm.Metrics.Sink
use achilles_sdk.Fsm.Metrics.Sink.{Sink}
use achilles_sdk.Prelude.{
  Bool, List, Option, String, [], concat, if◌then◌else◌, nat_eq, none, some, string_eq, ℕ, ◌-◌, ◌∷◌,
}

module _ (env : Env) (p : MetricVecs) (b : BTree before) where
  pub record Metrics : Type 0 where
    pub sink : Option (Sink p)
    pub options : MetricsOptions
    pub processing_start_times_by_gvk : GoMap Gvk b.Tree

  -- MustMakeMetrics is MustMakeMetricsWithOptions with no options. Registering the vectors with
  -- Prometheus is left out.
  unfoldable pub must_make_metrics_with_options : MetricsOptions → Metrics
  must_make_metrics_with_options options = record {
    sink = some (Sink.new_sink p);
    options = options;
    processing_start_times_by_gvk = [];
  }

  unfoldable pub initialize_for_gvk : Gvk → Metrics → Metrics
  initialize_for_gvk gvk m =
      if GoMap.member gvk m.processing_start_times_by_gvk then m else record m {
        processing_start_times_by_gvk = GoMap.insert gvk b.empty m.processing_start_times_by_gvk;
      }

  -- The sink after a call, if there is one.
  abbrev pub called : Metrics → (Sink p → Sink p) → Option (Sink p) → Metrics
  called m f none = m
  called m f (some sink) = record m { sink = some (f sink) }

  abbrev pub on_sink : (Sink p → Sink p) → Metrics → Metrics
  on_sink f m = called m f m.sink

  -- The tests that return before anything is recorded.
  abbrev pub unless_disabled : String → (Sink p → Sink p) → Metrics → Metrics
  unless_disabled metric f m = if is_metric_disabled m.options metric then m else on_sink f m

  -- `m.sink` is dereferenced without a test for nil; a nil sink is left as it is here.
  unfoldable pub reset : Metrics → Metrics
  reset m = on_sink (Sink.reset p) m

  unfoldable pub record_trigger : Gvk → ObjectKey → String → String → String → Metrics → Metrics
  record_trigger trigger_gvk request_obj_key event trigger_type controller_name m =
      unless_disabled achilles_resource_trigger
        (Sink.record_trigger p trigger_gvk request_obj_key event trigger_type controller_name) m

  unfoldable pub delete_trigger : ObjectKey → String → Metrics → Metrics
  delete_trigger request_obj_key controller_name m =
      on_sink (λ sink. (Sink.delete_trigger p request_obj_key controller_name sink).0) m

  unfoldable pub record_condition : Object → String → Metrics → Metrics
  unfolding must_typed_object_ref was_deleted
  record_condition obj condition_type m =
      let ref = must_typed_object_ref obj in
      unless_disabled achilles_resource_condition
        (Sink.record_condition p (ref_key ref) (ref_gvk ref) (env.get_condition obj condition_type)
          (was_deleted obj))
        m

  unfoldable pub record_readiness : Object → Metrics → Metrics
  unfolding record_condition
  record_readiness obj m =
      if is_metric_disabled m.options achilles_resource_readiness
      then m
      else record_condition obj env.type_ready m

  unfoldable pub delete_condition : Object → String → Metrics → Metrics
  unfolding must_typed_object_ref
  delete_condition obj condition_type m =
      let ref = must_typed_object_ref obj in
      unless_disabled achilles_resource_condition
        (λ sink.
          (Sink.delete_condition p (ref_key ref) (ref_gvk ref)
            (env.get_condition obj condition_type) sink).0)
        m

  unfoldable pub delete_readiness : Object → Metrics → Metrics
  unfolding delete_condition
  delete_readiness obj m = delete_condition obj env.type_ready m

  unfoldable pub record_state_duration : Gvk → String → ℕ → Metrics → Metrics
  record_state_duration gvk state duration m =
      unless_disabled achilles_state_duration (Sink.record_state_duration p gvk state duration) m

  unfoldable pub record_suspend : Object → Bool → Metrics → Metrics
  unfolding must_typed_object_ref
  record_suspend obj suspend m =
      let ref = must_typed_object_ref obj in
      unless_disabled achilles_suspend (Sink.record_suspend p (ref_key ref) (ref_gvk ref) suspend) m

  abbrev pub no_start_times : Gvk → Error
  no_start_times gvk = plain (
      concat (
        "no processing start time found for GVK "
        ∷ env.gvk_string gvk
        ∷ ", missing a call to metrics.InitializeForGVK()"
        ∷ []))

  -- What is done with the start times of the type, if there are any.
  abbrev pub found_tree :
      Gvk → Metrics → (b.Tree → Metrics) → Option b.Tree → Metrics × Option Error
  found_tree gvk m f none = (m, some (no_start_times gvk))
  found_tree gvk m f (some tree) = (f tree, none)

  abbrev pub found_sink :
      Gvk → Metrics → (Sink p → b.Tree → Metrics) → Option (Sink p) → Metrics × Option Error
  found_sink gvk m f none = (m, none)
  found_sink gvk m f (some sink) =
      found_tree gvk m (f sink) (GoMap.lookup gvk m.processing_start_times_by_gvk)

  abbrev pub with_start_times : Gvk → (Sink p → b.Tree → Metrics) → Metrics → Metrics × Option Error
  with_start_times gvk f m =
      if is_metric_disabled m.options achilles_processing_duration
      then (m, none)
      else found_sink gvk m f m.sink

  unfoldable pub record_processing_start :
      Gvk → ObjectKey → ℕ → ℕ → Metrics → Metrics × Option Error
  record_processing_start gvk req gen now m =
      with_start_times gvk
        (λ sink tree. record m {
          processing_start_times_by_gvk =
              GoMap.insert gvk (StartTimes.set b req.name req.namespace gen now tree)
                m.processing_start_times_by_gvk;
        })
        m

  -- The loop over the start times.
  unfoldable pub observe_durations : Gvk → ℕ → Bool → List ℕ → Sink p → Sink p
  observe_durations gvk now success [] sink = sink
  observe_durations gvk now success (start_time ∷ rest) sink =
      observe_durations gvk now success rest
        (Sink.record_processing_duration p gvk (now - start_time) success sink)

  unfoldable pub record_processing_duration :
      Gvk → ObjectKey → ℕ → Bool → ℕ → Metrics → Metrics × Option Error
  unfolding observe_durations
  record_processing_duration gvk req gen success now m =
      with_start_times gvk
        (λ sink tree. record m {
          sink = some (
              observe_durations gvk now success
                (StartTimes.get_range b req.name req.namespace gen success tree) sink);
          processing_start_times_by_gvk =
              GoMap.insert gvk
                (if success
                  then StartTimes.delete_range b req.name req.namespace gen tree
                  else StartTimes.set_range_failed b req.name req.namespace gen tree)
                m.processing_start_times_by_gvk;
        })
        m

  unfoldable pub record_event : Gvk → String → String → String → String → String → Metrics → Metrics
  record_event trigger_gvk object_name object_namespace event_type reason controller_name m =
      on_sink
        (Sink.record_event p trigger_gvk object_name object_namespace event_type reason
          controller_name)
        m

  unfoldable pub delete_event : Object → Metrics → Metrics
  unfolding must_typed_object_ref
  delete_event obj m =
      let ref = must_typed_object_ref obj in
      on_sink (λ sink. (Sink.delete_event p (ref_key ref) (ref_gvk ref) sink).0) m
