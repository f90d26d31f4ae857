-- ===== src/Fsm/Builder/Build.antt =====
-- pkg/fsm/builder.go: the methods Reconciler and Build.
use achilles_sdk.Api.{Env, Error, wrap}
use achilles_sdk.Fsm.Builder.{
  Builder, Call, custom_calls, Program, managed_gvks, new_fsm_reconciler, owned_calls, with_options,
  for_object, build_controller, controller_fn,
}
use achilles_sdk.Fsm.Metrics.BTree.{BTree}
use achilles_sdk.Fsm.Metrics.Prometheus.{MetricVecs}
use achilles_sdk.Fsm.Metrics.StartTimes.{before}
use achilles_sdk.Fsm.Metrics.Recorder.{Metrics, initialize_for_gvk}
use achilles_sdk.Fsm.Reconciler.{Reconciler}
use achilles_sdk.Prelude.{List, Option, String, [], map, nat_eq, none, some, string_eq, ◌++◌, ◌∷◌}

-- Builder.Reconciler; `to_kebab` is strcase.ToKebab.
unfoldable pub reconciler : {X : Type 0} → Program → (String → String) → Builder X → Reconciler
unfolding new_fsm_reconciler
reconciler program to_kebab b =
    new_fsm_reconciler program (to_kebab b.obj.gvk.kind) b.obj.gvk b.initial_state b.finalizer_state
      (managed_gvks b.managed_types) b.reconciler_options

module _ (X : Type 0) (env : Env) (p : MetricVecs) (t : BTree before) where
  -- What the function that Build returns does: the calls, in their order, and the metrics after it,
  -- and the error.
  pub record Built : Type 0 where
    pub calls : List (Call X)
    pub metrics : Metrics env p t
    pub error : Option Error

module _ {X : Type 0} where
  -- The calls before the loop over the managed types.
  abbrev pub first_calls : Builder X → List (Call X)
  first_calls b =
      with_options b.skip_name_validation b.max_concurrent_reconciles ∷ for_object b.obj ∷ []

  -- The calls between that loop and `builder.Build(r)`.
  abbrev pub later_calls : Builder X → List (Call X)
  later_calls b = custom_calls b.watches b.watch_remote_kinds b.watch_raw_sources b.opts

module _ {X : Type 0} (env : Env) (p : MetricVecs) (t : BTree before) where
  -- After `builder.Build(r)`, with the calls before it.
  unfoldable pub after_build :
      Builder X → List (Call X) → Metrics env p t → Option Error → Built X env p t
  after_build b calls metrics (some e) = record {
    calls = calls ++ build_controller ∷ [];
    metrics = metrics;
    error = some (wrap "initializing controller" e);
  }
  after_build b calls metrics none = record {
    calls = calls ++ build_controller ∷ map controller_fn b.controller_fns;
    metrics = initialize_for_gvk env p t b.obj.gvk metrics;
    error = none;
  }

  -- After the loop over the managed types, with the calls that it made.
  unfoldable pub after_owned :
      (List (Call X) → Option Error)
      → Builder X
      → List (Call X)
      → Metrics env p t
      → Option Error
      → Built X env p t
  unfolding after_build
  after_owned answer b owned metrics (some e) = record {
    calls = first_calls b ++ owned;
    metrics = metrics;
    error = some e;
  }
  after_owned answer b owned metrics none =
      let calls = first_calls b ++ owned ++ later_calls b in
      after_build b calls metrics (answer calls)

  -- `answer` is what controller-runtime's Build returns after the calls.
  unfoldable pub build :
      (List (Call X) → Option Error) → Builder X → Metrics env p t → Built X env p t
  unfolding after_owned
  build answer b metrics =
      let (owned, failed) = owned_calls env b.managed_types in
      after_owned answer b owned metrics failed
