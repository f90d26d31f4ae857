-- ===== src/Fsm/Types/Result.antt =====
-- pkg/fsm/types/results.go. An error that is nil, and a custom condition that is nil, are `none`.
-- Durations are natural numbers of nanoseconds. Go compares with `!= 0`, so a negative duration
-- counts as a requeue as well; it is not modelled.
pub mod Laws
use achilles_sdk.Api.{ConditionStatus, Error, error_text, wrap}
use achilles_sdk.Prelude.{
  Bool, Option, String, [], concat, false, if◌then◌else◌, nat_eq, none, not, some, string_eq, true,
  ℕ, ◌==◌, ◌∷◌,
}

abbrev pub default_error_reason : String
default_error_reason = "InternalError"

abbrev pub default_requeue_reason : String
default_requeue_reason = "WaitingForCondition"

pub record ResultStatusCondition : Type 0 where
  pub status : ConditionStatus
  pub reason : String
  pub message : String

pub record Result : Type 0 where
  pub done : Bool
  pub error : Option Error
  pub reason : String
  pub requeue_msg : String
  pub requeue_after : ℕ
  pub requeue_after_completion : Bool
  pub requeue_after_completion_state : String
  pub custom_status_condition : Option ResultStatusCondition

-- types.Result{}
abbrev pub zero_result : Result
zero_result = record {
  done = false;
  error = none;
  reason = "";
  requeue_msg = "";
  requeue_after = 0;
  requeue_after_completion = false;
  requeue_after_completion_state = "";
  custom_status_condition = none;
}

-- reconcile.Result with the error beside it, as controller-runtime receives them.
pub record Outcome : Type 0 where
  pub requeue : Bool
  pub requeue_after : ℕ
  pub error : Option Error

abbrev pub no_requeue : Outcome
no_requeue = record { requeue = false; requeue_after = 0; error = none }

-- The method `Get`, without its log entries.
unfoldable pub get : Result → Outcome
get r = elim r.error [
  | some e ↦ record no_requeue { error = some e }
  | none ↦
      if not (r.requeue_msg == "")
      then if not (r.requeue_after == 0)
        then record no_requeue { requeue_after = r.requeue_after }
        else record no_requeue { requeue = true }
      else no_requeue
]

unfoldable pub get_message_and_reason : Result → String × String
get_message_and_reason r =
    let (message, default_reason) = elim r.error as (λ _. String × String) [
      | some e ↦ (error_text e, default_error_reason)
      | none ↦ (concat (r.requeue_msg ∷ " (requeued)" ∷ []), default_requeue_reason)
    ] in
    (message, if r.reason == "" then default_reason else r.reason)

unfoldable pub has_requeue : Result → Bool
has_requeue r = not (r.requeue_after == 0)

unfoldable pub is_done : Result → Bool
is_done r = r.done

unfoldable pub wrap_error : Result → String → Result
wrap_error r msg = elim r.error [
  | none ↦ r
  | some e ↦ record zero_result { error = some (wrap msg e) }
]

unfoldable pub error_result_with_reason : Error → String → Result
error_result_with_reason e reason = record zero_result { error = some e; reason = reason }

unfoldable pub error_result : Error → Result
unfolding error_result_with_reason
error_result e = error_result_with_reason e ""

unfoldable pub requeue_result_with_reason : String → String → ℕ → Result
requeue_result_with_reason msg reason requeue_after = record zero_result {
  requeue_msg = msg;
  requeue_after = requeue_after;
  reason = reason;
  done = false;
}

unfoldable pub requeue_result : String → ℕ → Result
unfolding requeue_result_with_reason
requeue_result msg requeue_after = requeue_result_with_reason msg "" requeue_after

unfoldable pub requeue_result_with_backoff : String → Result
unfolding requeue_result
requeue_result_with_backoff msg = requeue_result msg 0

unfoldable pub requeue_result_with_reason_and_backoff : String → String → Result
unfolding requeue_result_with_reason
requeue_result_with_reason_and_backoff msg reason = requeue_result_with_reason msg reason 0

unfoldable pub done_and_requeue_result : String → ℕ → Result
done_and_requeue_result msg requeue_after = record zero_result {
  requeue_msg = msg;
  requeue_after = requeue_after;
  reason = msg;
  done = true;
}

unfoldable pub done_result : Result
done_result = record zero_result { done = true }

unfoldable pub done_and_requeue_after_completion_with_backoff : String → Result
done_and_requeue_after_completion_with_backoff msg = record zero_result {
  done = true;
  requeue_msg = msg;
  requeue_after_completion = true;
}

unfoldable pub done_and_requeue_after_completion : String → ℕ → Result
done_and_requeue_after_completion msg requeue_after = record zero_result {
  done = true;
  requeue_msg = msg;
  requeue_after = requeue_after;
  requeue_after_completion = true;
}

unfoldable pub done_result_with_status_condition : ResultStatusCondition → Result
done_result_with_status_condition custom = record zero_result {
  done = true;
  custom_status_condition = some custom;
}
