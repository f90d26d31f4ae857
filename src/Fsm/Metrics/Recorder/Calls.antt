-- ===== src/Fsm/Metrics/Recorder/Calls.antt =====
-- The calls into the metrics that a reconciliation makes, carried out on the metrics.
use achilles_sdk.Api.{
  Env, History, Metric, delete_condition, delete_event, delete_readiness, delete_trigger, metric,
  record_condition, record_processing_duration, record_readiness, record_state_duration,
  record_suspend,
}
use achilles_sdk.Fsm.Metrics.BTree.{BTree}
use achilles_sdk.Fsm.Metrics.Prometheus.{MetricVecs}
use achilles_sdk.Fsm.Metrics.StartTimes.{before}
use achilles_sdk.Fsm.Metrics.Recorder
use achilles_sdk.Fsm.Metrics.Recorder.{Metrics}
use achilles_sdk.Prelude.{[], nat_eq, string_eq, ℕ, ◌∷◌}

module _ (env : Env) (p : MetricVecs) (b : BTree before) where
  -- `duration` is how long the state ran, and `now` what the clock says.
  abbrev pub carry_out : ℕ → ℕ → Metric → Metrics env p b → Metrics env p b
  carry_out duration now (record_suspend obj suspend) m =
      Recorder.record_suspend env p b obj suspend m
  carry_out duration now (record_state_duration gvk state) m =
      Recorder.record_state_duration env p b gvk state duration m
  carry_out duration now (record_condition obj type) m =
      Recorder.record_condition env p b obj type m
  carry_out duration now (record_readiness obj) m = Recorder.record_readiness env p b obj m
  carry_out duration now (record_processing_duration gvk req gen success) m =
      (Recorder.record_processing_duration env p b gvk req gen success now m).0
  carry_out duration now (delete_trigger req name) m = Recorder.delete_trigger env p b req name m
  carry_out duration now (delete_readiness obj) m = Recorder.delete_readiness env p b obj m
  carry_out duration now (delete_event obj) m = Recorder.delete_event env p b obj m
  carry_out duration now (delete_condition obj type) m =
      Recorder.delete_condition env p b obj type m

  -- The metrics after the effects of a handler, of which the latest stands first.
  abbrev pub carry_out_all : ℕ → ℕ → History → Metrics env p b → Metrics env p b
  carry_out_all duration now [] m = m
  carry_out_all duration now (metric call ∷ h) m =
      carry_out duration now call (carry_out_all duration now h m)
  carry_out_all duration now (_ ∷ h) m = carry_out_all duration now h m
