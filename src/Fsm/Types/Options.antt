-- ===== src/Fsm/Types/Options.antt =====
-- pkg/fsm/types/options.go: the options of the metrics.
use achilles_sdk.Prelude.{
  Bool, List, String, [], false, if◌then◌else◌, nat_eq, string_eq, true, ◌==◌, ◌∷◌,
}

abbrev pub achilles_resource_readiness : String
achilles_resource_readiness = "ResourceReadiness"

abbrev pub achilles_resource_trigger : String
achilles_resource_trigger = "ResourceTrigger"

abbrev pub achilles_resource_condition : String
achilles_resource_condition = "ResourceCondition"

abbrev pub achilles_state_duration : String
achilles_state_duration = "StateDuration"

abbrev pub achilles_suspend : String
achilles_suspend = "ResourceSuspend"

abbrev pub achilles_processing_duration : String
achilles_processing_duration = "ProcessingDuration"

pub record MetricsOptions : Type 0 where
  pub condition_types : List String
  pub disable_metrics : List String

-- The loop of IsMetricDisabled.
unfoldable is_listed : String → List String → Bool
is_listed metric [] = false
is_listed metric (v ∷ rest) =
    let later = is_listed metric rest in if v == metric then true else later

unfoldable pub is_metric_disabled : MetricsOptions → String → Bool
unfolding is_listed
is_metric_disabled m metric = is_listed metric m.disable_metrics
