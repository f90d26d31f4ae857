-- ===== src/Fsm/ClaimBuilder/Watched.antt =====
-- All that Build of pkg/fsm/claim_builder.go asks of controller-runtime, for both controllers.
use achilles_sdk.GoMap
use achilles_sdk.Api.{Env, Error, Gvk, gvk_eq}
use achilles_sdk.Fsm.Builder.{
  Call, build_controller, controller_fn, for_object, named, owned_calls, watch_mapped, with_options,
}
use achilles_sdk.Fsm.Builder.Watched.{all_watches, owned_calls_lem, watch_managed, watched_lem}
use achilles_sdk.Fsm.ClaimBuilder.{ClaimBuilder}
use achilles_sdk.Fsm.ClaimBuilder.Build.{
  BuiltClaim, after_claim, after_claimed, after_claimed_owned, build, claim_calls,
  claimed_first_calls, claimed_later_calls, without_predicates,
}
use achilles_sdk.Fsm.ClaimBuilder.Laws.{initialize_keeps}
use achilles_sdk.Fsm.Handler.{trigger_type_relative}
use achilles_sdk.Fsm.Metrics.BTree.{BTree}
use achilles_sdk.Fsm.Metrics.Prometheus.{MetricVecs}
use achilles_sdk.Fsm.Metrics.StartTimes.{before}
use achilles_sdk.Fsm.Metrics.Recorder.{Metrics, initialize_for_gvk}
use achilles_sdk.Prelude.{
  List, Option, [], ap, arith, false, map, nat_eq, none, refl, some, string_eq, ◌++◌, ◌==◌, ◌||◌,
  ◌∙◌, ◌∷◌, ◌≡◌,
}

module _ {X : Type 0} (env : Env) (p : MetricVecs) (t : BTree before)
    (answer : List (Call X) → Option Error) (b : ClaimBuilder X) (metrics : Metrics env p t) where
  -- All that is asked for the claim's controller, and for that of the claimed type.
  abbrev pub all_claim_calls : List (Call X)
  all_claim_calls =
      named b.claim.gvk.kind
      ∷ with_options false b.max_concurrent_reconciles
      ∷ for_object b.claim
      ∷ watch_mapped b.obj trigger_type_relative
      ∷ build_controller
      ∷ []

  abbrev pub all_claimed_calls : List (Call X)
  all_claimed_calls =
      (with_options false b.max_concurrent_reconciles
        ∷ watch_mapped b.claim trigger_type_relative
        ∷ for_object b.obj
        ∷ all_watches (without_predicates b.managed_types) b.watches b.watch_remote_kinds
            b.watch_raw_sources b.opts)
      ++ build_controller ∷ map controller_fn b.controller_fns

  -- All calls were made, and both types are added to those with start times.
  abbrev pub IsClaimComplete : BuiltClaim X env p t → Type 0
  IsClaimComplete built =
      (built.claim_controller ≡ all_claim_calls)
      × (built.claimed_controller ≡ all_claimed_calls)
      × ((asked : Gvk)
          → GoMap.member asked built.metrics.processing_start_times_by_gvk ≡ (
              b.claim.gvk == asked
              || (b.obj.gvk == asked || GoMap.member asked metrics.processing_start_times_by_gvk)))

  claimed_complete :
      (owned : List (Call X)) (failed : Option Error)
      → ((failed ≡ none) → owned ≡ map watch_managed (without_predicates b.managed_types))
      → (after_claimed_owned env p t answer b owned metrics failed).error ≡ none
      → IsClaimComplete (after_claimed_owned env p t answer b owned metrics failed)
  unfolding after_claimed_owned
  claimed_complete owned (some e) loop f = ground arith
  claimed_complete owned none loop f =
      finish (answer (claimed_first_calls b ++ owned ++ claimed_later_calls b)) f
    where
      finish :
          (o : Option Error)
          → (after_claimed env p t b
              (claimed_first_calls b ++ owned ++ claimed_later_calls b)
              metrics
              o).error
            ≡ none
          → IsClaimComplete (
              after_claimed env p t b
                (claimed_first_calls b ++ owned ++ claimed_later_calls b)
                metrics
                o)
      finish (some e) f = unfold after_claimed in ground arith
      finish none f =
          unfold after_claimed in
          (
            refl,
            ap
                (λ l.
                  (claimed_first_calls b ++ l)
                  ++ build_controller ∷ map controller_fn b.controller_fns)
                (watched_lem (without_predicates b.managed_types) b.watches b.watch_remote_kinds
                  b.watch_raw_sources b.opts owned (loop refl)),
            λ asked.
                initialize_keeps env p t b.claim.gvk asked
                  (initialize_for_gvk env p t b.obj.gvk metrics)
                ∙ ap (λ known. b.claim.gvk == asked || known)
                    (initialize_keeps env p t b.obj.gvk asked metrics),
          )

  after_claim_complete :
      (o : Option Error)
      → (after_claim env p t answer b metrics o).error ≡ none
      → IsClaimComplete (after_claim env p t answer b metrics o)
  unfolding after_claim
  after_claim_complete (some e) f = ground arith
  after_claim_complete none f =
      let types = without_predicates b.managed_types in
      claimed_complete (owned_calls env types).0 (owned_calls env types).1
        (λ done. (owned_calls_lem env types done).0) f

  -- If Build of a claim builder succeeds, what has been asked of controller-runtime is, in this
  -- order: for the claim's controller its name, the options, the claim's type, a watch of the
  -- claimed type mapped to claims, and the controller; for the claimed type's controller the
  -- options, a watch of claims mapped to claimed objects, the type, a watch of owned objects without
  -- predicates for each managed type, each custom watch, each watch of another cluster, each raw
  -- source and each filter, all as they were added, the controller, and each of the functions on
  -- it. The metrics have start times for the two types and those that had them before.
  pub build-IsClaimComplete :
      (build env p t answer b metrics).error ≡ none
      → IsClaimComplete (build env p t answer b metrics)
  unfolding build
  build-IsClaimComplete e = after_claim_complete (answer (claim_calls b)) e
