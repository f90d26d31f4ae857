-- ===== src/Fsm/ClaimBuilder/Build.antt =====
-- pkg/fsm/claim_builder.go: the method Build, which makes two controllers.
use achilles_sdk.Api.{Env, Error, Gvk, wrap}
use achilles_sdk.Fsm.Builder.{
  custom_calls, Call, ManagedType, Program, new_fsm_reconciler, no_reconciler_options, owned_calls,
  named, with_options, for_object, watch_mapped, build_controller, controller_fn,
}
use achilles_sdk.Fsm.ClaimBuilder.{ClaimBuilder}
use achilles_sdk.Fsm.ClaimReconciler.{ClaimReconciler}
use achilles_sdk.Meta.{Application}
use achilles_sdk.Fsm.Handler.{trigger_type_relative}
use achilles_sdk.Fsm.Metrics.BTree.{BTree}
use achilles_sdk.Fsm.Metrics.Prometheus.{MetricVecs}
use achilles_sdk.Fsm.Metrics.StartTimes.{before}
use achilles_sdk.Fsm.Metrics.Recorder.{Metrics, initialize_for_gvk}
use achilles_sdk.Fsm.Reconciler.{Reconciler}
use achilles_sdk.Prelude.{
  List, Option, String, [], false, map, nat_eq, none, some, string_eq, ◌++◌, ◌∷◌,
}

module _ {X : Type 0} where
  -- The reconciler of the claimed type.
  unfoldable pub claimed_reconciler : Program → (String → String) → ClaimBuilder X → Reconciler
  unfolding new_fsm_reconciler
  claimed_reconciler program to_kebab b =
      new_fsm_reconciler program (to_kebab b.obj.gvk.kind) b.obj.gvk b.initial_state
        b.finalizer_state b.managed_types no_reconciler_options

  -- NewClaimReconciler
  unfoldable pub new_claim_reconciler : Application → ClaimBuilder X → ClaimReconciler
  new_claim_reconciler application b = record {
    name = b.claim.gvk.kind;
    claim_gvk = b.claim.gvk;
    claimed_gvk = b.obj.gvk;
    application = application;
    before_delete = b.before_delete;
  }

  -- The calls that make the claim's controller, before `Complete`.
  abbrev pub claim_calls : ClaimBuilder X → List (Call X)
  claim_calls b =
      named b.claim.gvk.kind
      ∷ with_options false b.max_concurrent_reconciles
      ∷ for_object b.claim
      ∷ watch_mapped b.obj trigger_type_relative
      ∷ []

  -- The calls that make the claimed type's controller, around the loop over the managed types.
  abbrev pub claimed_first_calls : ClaimBuilder X → List (Call X)
  claimed_first_calls b =
      with_options false b.max_concurrent_reconciles
      ∷ watch_mapped b.claim trigger_type_relative
      ∷ for_object b.obj
      ∷ []

  abbrev pub claimed_later_calls : ClaimBuilder X → List (Call X)
  claimed_later_calls b = custom_calls b.watches b.watch_remote_kinds b.watch_raw_sources b.opts

  -- The managed types of a claim builder have no predicates.
  abbrev pub without_predicates : List Gvk → List (ManagedType X)
  without_predicates [] = []
  without_predicates (gvk ∷ gvks) = record { gvk = gvk; predicates = [] } ∷ without_predicates gvks

module _ (X : Type 0) (env : Env) (p : MetricVecs) (t : BTree before) where
  -- What Build does: the calls for each of the two controllers, and the metrics after it.
  pub record BuiltClaim : Type 0 where
    pub claim_controller : List (Call X)
    pub claimed_controller : List (Call X)
    pub metrics : Metrics env p t
    pub error : Option Error

module _ {X : Type 0} (env : Env) (p : MetricVecs) (t : BTree before) where
  unfoldable pub after_claimed :
      ClaimBuilder X → List (Call X) → Metrics env p t → Option Error → BuiltClaim X env p t
  after_claimed b calls metrics (some e) = record {
    claim_controller = claim_calls b ++ build_controller ∷ [];
    claimed_controller = calls ++ build_controller ∷ [];
    metrics = metrics;
    error = some (wrap "initializing controller" e);
  }
  after_claimed b calls metrics none = record {
    claim_controller = claim_calls b ++ build_controller ∷ [];
    claimed_controller = calls ++ build_controller ∷ map controller_fn b.controller_fns;
    metrics = initialize_for_gvk env p t b.claim.gvk (initialize_for_gvk env p t b.obj.gvk metrics);
    error = none;
  }

  unfoldable pub after_claimed_owned :
      (List (Call X) → Option Error)
      → ClaimBuilder X
      → List (Call X)
      → Metrics env p t
      → Option Error
      → BuiltClaim X env p t
  unfolding after_claimed
  after_claimed_owned answer b owned metrics (some e) = record {
    claim_controller = claim_calls b ++ build_controller ∷ [];
    claimed_controller = claimed_first_calls b ++ owned;
    metrics = metrics;
    error = some e;
  }
  after_claimed_owned answer b owned metrics none =
      let calls = claimed_first_calls b ++ owned ++ claimed_later_calls b in
      after_claimed b calls metrics (answer calls)

  -- After `Complete` of the claim's controller.
  unfoldable pub after_claim :
      (List (Call X) → Option Error)
      → ClaimBuilder X
      → Metrics env p t
      → Option Error
      → BuiltClaim X env p t
  unfolding after_claimed_owned
  after_claim answer b metrics (some e) = record {
    claim_controller = claim_calls b ++ build_controller ∷ [];
    claimed_controller = [];
    metrics = metrics;
    error = some (wrap "creating claim controller" e);
  }
  after_claim answer b metrics none =
      let (owned, failed) = owned_calls env (without_predicates b.managed_types) in
      after_claimed_owned answer b owned metrics failed

  -- `answer` is what controller-runtime's Build, or Complete, returns after the calls.
  unfoldable pub build :
      (List (Call X) → Option Error) → ClaimBuilder X → Metrics env p t → BuiltClaim X env p t
  unfolding after_claim
  build answer b metrics = after_claim answer b metrics (answer (claim_calls b))
