-- ===== src/Status.antt =====
-- pkg/status/conditions.go: the top-level "Ready" condition.
pub mod Laws
use achilles_sdk.Api.{
  Condition, ConditionStatus, Env, Object, status_false, status_true, status_unknown,
}
use achilles_sdk.Prelude.{
  Bool, List, String, [], concat, false, if◌then◌else◌, join, nat_eq, not, string_eq, true, ℕ, ◌&&◌,
  ◌++◌, ◌==◌, ◌∷◌,
}

abbrev pub reason_success : String
reason_success = "ConditionsSuccessful"

abbrev pub reason_failure : String
reason_failure = "ConditionsFailed"

abbrev pub ready_success_message : String
ready_success_message = "All conditions successful."

abbrev pub ready_failure_message_prefix : String
ready_failure_message_prefix = "Non-successful conditions: "

-- `status == corev1.ConditionTrue`
abbrev pub is_true : ConditionStatus → Bool
is_true status = status == status_true

unfoldable pub resource_ready : Env → Object → Bool
resource_ready env res =
    let ready_condition = env.get_condition res env.type_ready in
    ready_condition.type == env.type_ready
    && is_true ready_condition.status
    && ready_condition.observed_generation == res.generation

-- The loop `failedConditionTypes = append(failedConditionTypes, string(c.Type))`.
unfoldable pub condition_types : List Condition → List String
condition_types [] = []
condition_types (c ∷ cs) = c.type ∷ condition_types cs

unfoldable pub ready_message : List Condition → String
unfolding condition_types
ready_message [] = ready_success_message
ready_message (c ∷ cs) =
    concat (ready_failure_message_prefix ∷ join (condition_types (c ∷ cs)) ", " ∷ [])

-- The loop of `NewReadyCondition` over the conditions, with its three variables.
unfoldable pub scan_conditions :
    List Condition
    → ConditionStatus
    → String
    → List Condition
    → ConditionStatus × String × List Condition
scan_conditions [] status reason non_successful = (status, reason, non_successful)
scan_conditions (c ∷ cs) status reason non_successful =
    if not (is_true c.status)
    then scan_conditions cs status_false reason_failure (non_successful ++ c ∷ [])
    else scan_conditions cs status reason non_successful

-- `now` is what `metav1.Now()` returns.
unfoldable pub new_ready_condition : Env → ℕ → ℕ → List Condition → Condition
unfolding scan_conditions ready_message
new_ready_condition env now observed_generation conditions =
    let (status, reason, non_successful) =
      scan_conditions conditions status_true reason_success [] in
    record {
      type = env.type_ready;
      last_transition_time = now;
      status = status;
      reason = reason;
      message = ready_message non_successful;
      observed_generation = observed_generation;
    }

unfoldable pub new_unready_condition_with_message : Env → ℕ → ℕ → String → Condition
new_unready_condition_with_message env now observed_generation message = record {
  type = env.type_ready;
  last_transition_time = now;
  status = status_false;
  reason = "";
  message = message;
  observed_generation = observed_generation;
}

unfoldable pub new_unready_condition : Env → ℕ → ℕ → Condition
unfolding new_unready_condition_with_message
new_unready_condition env now observed_generation =
    new_unready_condition_with_message env now observed_generation ""
