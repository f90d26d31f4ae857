-- ===== src/Fsm/ClaimBuilder/Laws.antt =====
-- InitializeForGVK of pkg/fsm/metrics/metrics.go, as the builders of pkg/fsm call it.
use achilles_sdk.GoMap
use achilles_sdk.GoMap.Laws.{member-insert}
use achilles_sdk.Api.{Env, Gvk, gvk_eq, same_gvk_iff}
use achilles_sdk.Fsm.Metrics.BTree.{BTree}
use achilles_sdk.Fsm.Metrics.Prometheus.{MetricVecs}
use achilles_sdk.Fsm.Metrics.StartTimes.{before}
use achilles_sdk.Fsm.Metrics.Recorder.{Metrics, initialize_for_gvk}
use achilles_sdk.Prelude.{
  Bool-cases, arith, inl, inr, nat_eq, string_eq, subst, true, ◌==◌, ◌||◌, ◌≡◌,
}

module _ (env : Env) (p : MetricVecs) (t : BTree before) where
  -- The type has start times after its initialization, and so has any that had them before.
  pub initialize_keeps :
      (gvk asked : Gvk) (m : Metrics env p t)
      → GoMap.member asked (initialize_for_gvk env p t gvk m).processing_start_times_by_gvk
        ≡ (gvk == asked || GoMap.member asked m.processing_start_times_by_gvk)
  unfolding initialize_for_gvk
  initialize_keeps gvk asked m =
      elim (Bool-cases (GoMap.member gvk m.processing_start_times_by_gvk)) [
        | inl e ↦ simp e (known e)
        | inr e ↦ simp e (member-insert gvk asked t.empty m.processing_start_times_by_gvk)
      ]
    where
      known :
          GoMap.member gvk m.processing_start_times_by_gvk ≡ true
          → GoMap.member asked m.processing_start_times_by_gvk
            ≡ (gvk == asked || GoMap.member asked m.processing_start_times_by_gvk)
      known e = elim (Bool-cases (gvk == asked)) [
        | inl q ↦ ground (
          arith,
          q,
          subst (λ k. GoMap.member k m.processing_start_times_by_gvk ≡ true)
              ((same_gvk_iff gvk asked).0 q) e,
        )
        | inr q ↦ ground (arith, q)
      ]
