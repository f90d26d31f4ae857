-- ===== src/Status/Laws.antt =====
-- The conjunction that `NewReadyCondition` of pkg/status/conditions.go computes.
use achilles_sdk.Api.{Condition, ConditionStatus, Env, status_false, status_true}
use achilles_sdk.Status.{
  is_true, new_ready_condition, ready_message, scan_conditions, reason_failure, reason_success,
}
use achilles_sdk.Prelude.{
  All, List, String, [], ap, append-nil, append_assoc, arith, eq_iff, if◌then◌else◌, refl,
  string_eq, ℕ, ◌++◌, ◌↔◌, ◌∷◌, ◌≡◌, ◌⊎◌,
}

-- The conditions that are not true, in order.
unfoldable pub failed : List Condition → List Condition
failed [] = []
failed (c ∷ cs) = if is_true c.status then failed cs else c ∷ failed cs

-- The status and the reason after the loop.
abbrev verdict : ConditionStatus → List Condition → ConditionStatus
verdict s [] = s
verdict s (_ ∷ _) = status_false

abbrev verdict_reason : String → List Condition → String
verdict_reason r [] = r
verdict_reason r (_ ∷ _) = reason_failure

-- The loop adds the failed conditions, and turns the status and the reason at the first.
scan_conditions_lem :
    (cs : List Condition) (s : ConditionStatus) (r : String) (acc : List Condition)
    → scan_conditions cs s r acc
      ≡ (verdict s (failed cs), verdict_reason r (failed cs), acc ++ failed cs)
unfolding scan_conditions failed
scan_conditions_lem [] s r acc = cc (append-nil acc)
scan_conditions_lem (c ∷ cs) s r acc = ground (
  arith,
  scan_conditions_lem cs s r acc,
  scan_conditions_lem cs status_false reason_failure (acc ++ c ∷ []),
  append_assoc acc (c ∷ []) (failed cs),
)

-- No condition failed exactly if all are true.
failed-nil_iff : (cs : List Condition) → (failed cs ≡ []) ↔ All (λ c. c.status ≡ status_true) cs
unfolding failed
failed-nil_iff [] = (λ h. tt, λ h. refl)
failed-nil_iff (c ∷ cs) = (
  λ h. (ground (arith, eq_iff c.status status_true), (failed-nil_iff cs).0 (ground arith)),
  λ h. ground (arith, h.0, (failed-nil_iff cs).1 h.1, eq_iff c.status status_true),
)

-- The "Ready" condition is true exactly if every condition given is true, and false in every other
-- case, an unknown status included. Its reason says which, and its message names the types of the
-- conditions that are not true, in order; it is observed at the generation given.
pub new_ready_condition_lem :
    (env : Env) (now g : ℕ) (cs : List Condition)
    → let r = new_ready_condition env now g cs in
      ((r.status ≡ status_true) ↔ All (λ c. c.status ≡ status_true) cs)
      × ((r.status ≡ status_true) ⊎ (r.status ≡ status_false))
      × ((r.reason ≡ reason_success) ↔ (r.status ≡ status_true))
      × (r.message ≡ ready_message (failed cs))
      × (r.observed_generation ≡ g)
unfolding new_ready_condition
new_ready_condition_lem env now g cs =
    let e = scan_conditions_lem cs status_true reason_success [] in
    (
      (
        λ h. (failed-nil_iff cs).0 (ground (arith, e, eq_iff status_false status_true)),
        λ h. ground (arith, e, (failed-nil_iff cs).1 h),
      ),
      ground (arith, e),
      (
        λ h. ground (arith, e, eq_iff reason_failure reason_success),
        λ h. ground (arith, e, eq_iff status_false status_true),
      ),
      ap (λ t. ready_message t.2) e,
      refl,
    )
