-- ===== src/Fsm/Builder.antt =====
-- pkg/fsm/builder.go: how an FSM controller is put together. What a user of the SDK hands on to
-- controller-runtime (handlers, predicates, sources, caches, options) is of an opaque type `X`. The
-- calls into controller-runtime's builder are listed in their order; whether it builds the
-- controller is an argument. A panic is an error here. The log, the rate limiter and the client,
-- which are handed through, are left out.
pub mod Methods
pub mod Build
pub mod Laws
pub mod Failures
pub mod Watched
use achilles_sdk.Api.{error_text, Env, Error, Gvk, Object, ObjectKey, Try, err, ok, plain, wrap}
use achilles_sdk.Meta.{Application, new_object_for_gvk}
use achilles_sdk.Fsm.Types.Options.{MetricsOptions}
use achilles_sdk.Fsm.Machine.{State}
use achilles_sdk.Fsm.Reconciler.{Reconciler, default_create_func}
use achilles_sdk.Fsm.Metrics.BTree.{BTree}
use achilles_sdk.Fsm.Metrics.Prometheus.{MetricVecs}
use achilles_sdk.Fsm.Metrics.StartTimes.{before}
use achilles_sdk.Fsm.Metrics.Recorder.{Metrics, initialize_for_gvk}
use achilles_sdk.Fsm.Handler.{TriggerType, trigger_type_child, trigger_type_relative}
use achilles_sdk.Prelude.{
  Bool, List, Option, String, [], concat, false, map, nat_eq, none, not, some, string_eq, ℕ, ◌++◌,
  ◌∷◌,
}

-- fsmtypes.ReconcilerOptions; a CreateFunc that is nil is `none`.
pub record ReconcilerOptions : Type 0 where
  pub create_if_not_found : Bool
  pub create_func : Option (ObjectKey → Option Object)
  pub disable_ready_condition : Bool
  pub metrics_options : MetricsOptions

abbrev pub no_reconciler_options : ReconcilerOptions
no_reconciler_options = record {
  create_if_not_found = false;
  create_func = none;
  disable_ready_condition = false;
  metrics_options = record { condition_types = []; disable_metrics = [] };
}

-- The name of a controller's work, which the SDK's user writes: its states, and the labels.
pub record Program : Type 0 where
  pub states : ℕ → State
  pub application : Application

-- NewFSMReconciler
unfoldable pub new_fsm_reconciler :
    Program → String → Gvk → Option ℕ → Option ℕ → List Gvk → ReconcilerOptions → Reconciler
new_fsm_reconciler program name gvk initial_state finalizer_state managed_types options = record {
  machine = record {
    states = program.states;
    name = name;
    managed_types = managed_types;
    application = program.application;
  };
  gvk = gvk;
  initial_state = initial_state;
  finalizer_state = finalizer_state;
  create_if_not_found = options.create_if_not_found;
  create_func = elim options.create_func [ none ↦ default_create_func gvk | some f ↦ f ];
  disable_ready_condition = options.disable_ready_condition;
  condition_types = options.metrics_options.condition_types;
}

module _ (X : Type 0) where
  pub record ManagedType : Type 0 where
    pub gvk : Gvk
    pub predicates : List X

  pub record Watch : Type 0 where
    pub object : Object
    pub handler : X
    pub opts : List X
    pub trigger_type : TriggerType

  pub record WatchRemoteKind : Type 0 where
    pub cache : X
    pub obj : Object
    pub handler : X
    pub predicates : List X
    pub trigger_type : TriggerType

  pub record Builder : Type 0 where
    pub obj : Object
    pub initial_state : Option ℕ
    pub finalizer_state : Option ℕ
    pub managed_types : List ManagedType
    pub controller_fns : List X
    pub watches : List Watch
    pub watch_remote_kinds : List WatchRemoteKind
    pub watch_raw_sources : List X
    pub opts : List X  -- the predicates of withEventFilter
    pub max_concurrent_reconciles : ℕ
    pub reconciler_options : ReconcilerOptions
    pub skip_name_validation : Bool

  -- What is called on controller-runtime's builder, and on the controller that it builds. The
  -- handlers of watches are wrapped by the event handler that counts triggers.
  pub data Call : Type 0 where
    named : String → Call
    with_options : Bool → ℕ → Call
    for_object : Object → Call
    watch_owned : Object → List X → TriggerType → Call
    watch_mapped : Object → TriggerType → Call
    watch_object : Object → X → TriggerType → List X → Call
    watch_remote : X → Object → X → TriggerType → List X → Call
    watch_raw_source : X → Call
    with_event_filter : X → Call
    build_controller : Call
    controller_fn : X → Call

abbrev pub not_registered : Env → Gvk → Error
not_registered env gvk =
    plain (concat (env.gvk_string gvk ∷ " is not registered with runtime scheme" ∷ []))

-- The error that Build returns for a managed type.
abbrev pub construction_failed : Env → Gvk → Error → Error
construction_failed env gvk e =
    plain
      (concat ("constructing new object of type " ∷ env.gvk_string gvk ∷ ": " ∷ error_text e ∷ []))

module _ {X : Type 0} where
  abbrev pub managed_gvks : List (ManagedType X) → List Gvk
  managed_gvks [] = []
  managed_gvks (t ∷ types) = t.gvk ∷ managed_gvks types

  -- The loops of Build over the watches, the remote kinds, the sources, the options and the
  -- controller functions.
  abbrev pub watch_calls : List (Watch X) → List (Call X)
  watch_calls [] = []
  watch_calls (w ∷ ws) = watch_object w.object w.handler w.trigger_type w.opts ∷ watch_calls ws

  abbrev pub remote_calls : List (WatchRemoteKind X) → List (Call X)
  remote_calls [] = []
  remote_calls (w ∷ ws) =
      watch_remote w.cache w.obj w.handler w.trigger_type w.predicates ∷ remote_calls ws

  -- The calls of those loops that come before the controller is built.
  abbrev pub custom_calls :
      List (Watch X) → List (WatchRemoteKind X) → List X → List X → List (Call X)
  custom_calls ws remotes sources filters =
      watch_calls ws
      ++ remote_calls remotes
      ++ map watch_raw_source sources
      ++ map with_event_filter filters

  -- A managed type, with what the loop does for the others.
  unfoldable pub owned_call :
      Env → ManagedType X → List (Call X) × Option Error → Try Object → List (Call X) × Option Error
  owned_call env t (calls, failed) (err e) = ([], some (construction_failed env t.gvk e))
  owned_call env t (calls, failed) (ok o) =
      (watch_owned o t.predicates trigger_type_child ∷ calls, failed)

  -- The loop over the managed types: the calls, and the error that ends it.
  unfoldable pub owned_calls : Env → List (ManagedType X) → List (Call X) × Option Error
  unfolding owned_call
  owned_calls env [] = ([], none)
  owned_calls env (t ∷ types) =
      owned_call env t (owned_calls env types) (new_object_for_gvk env t.gvk)
