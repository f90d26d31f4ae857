-- ===== src/Bootstrap/Laws.antt =====
-- What starting the process does, call by call, and what a context that cannot be loaded does
-- (pkg/bootstrap/bootstrap.go).
use achilles_sdk.Api.{Error, Try, err, ok, wrap}
use achilles_sdk.Bootstrap.{Options}
use achilles_sdk.Bootstrap.Calls.{
  Call, Libraries, RestConfig, LoadingRules, add_healthz_check, add_readyz_check, add_to_scheme,
  raise, call, new_manager, set_logger, start_func, start_manager, wrapping, pure, panic,
  explicit_path, default_rules,
}
use achilles_sdk.Bootstrap.Start.{
  build_manager, build_rest_config, manager_options, setup_logging, start, with_limits,
}
use achilles_sdk.Prelude.{
  Bool, List, Option, [], arith, false, if◌then◌else◌, none, not, refl, some, string_eq, true, ◌++◌,
  ◌==◌, ◌∷◌, ◌≡◌,
}

module _ {Float32 Logger : Type 0} (libraries : Libraries Float32 Logger) where
  -- Calls in their order, each with what is made of its error. The first error ends them.
  abbrev pub make_calls :
      List (Call Float32 Logger × (Error → Error))
      → List (Call Float32 Logger)
      → Option (Try (Unit {0})) × List (Call Float32 Logger)
  make_calls [] calls = (some (ok tt), calls)
  make_calls ((c, wrapping) ∷ rest) calls = elim (libraries.respond calls c) [
    | none ↦ make_calls rest (c ∷ calls)
    | some e ↦ (some (err (wrapping e)), c ∷ calls)
  ]

  -- The calls of a process that has a logger and a config.
  abbrev pub start_calls :
      Options Float32
      → Logger
      → RestConfig Float32
      → Bool
      → List (Call Float32 Logger × (Error → Error))
  start_calls opts log cfg has_schemes =
      (
        new_manager cfg log (manager_options libraries opts),
        λ e. wrap "building manager" (wrap "constructing manager" e),
      )
        ∷ (add_healthz_check "healthz", λ e. wrap "building manager" (wrap "adding healthz" e))
        ∷ (add_readyz_check "readyz", λ e. wrap "building manager" (wrap "adding readyz" e))
        ∷ (if has_schemes then (add_to_scheme, wrap "building manager") ∷ [] else [])
      ++ (start_func log, wrap "running start func") ∷ (start_manager, wrap "starting manager") ∷ []

  -- A config that is built has the limits that the options ask for.
  limits-build_rest_config :
      (opts : Options Float32) (cfg : RestConfig Float32)
      (calls calls' : List (Call Float32 Logger))
      → build_rest_config libraries opts calls ≡ (some (ok cfg), calls')
      → (cfg.qps ≡ opts.client_qps) × (cfg.burst ≡ opts.client_burst)
  unfolding build_rest_config with_limits pure panic raise
  limits-build_rest_config opts cfg calls calls' built = ground arith

  module _ (opts : Options Float32) (log : Logger)
      (logged : setup_logging libraries opts.verbose_mode opts.dev_logger []
        ≡ (some (ok log), set_logger log ∷ [])) where
    start_all :
        (cfg : RestConfig Float32) (has_schemes : Bool)
        → build_rest_config libraries opts (set_logger log ∷ [])
          ≡ (some (ok cfg), set_logger log ∷ [])
        → start libraries has_schemes opts []
          ≡ make_calls (start_calls opts log cfg has_schemes) (set_logger log ∷ [])
    unfolding start wrapping build_manager call
    start_all cfg true configured = simp (logged, configured) (ground arith)
    start_all cfg false configured = ground (arith, logged, configured)

    -- A process that has its logger and its config makes these calls in this order: it makes the
    -- manager, adds the two health checks and the types to the scheme if there is a builder for
    -- them, and only then calls the StartFunc and starts the manager. It stops at the first error
    -- and returns it, with a text that names the step. The config has the limits of the options.
    pub start_lem :
        (cfg : RestConfig Float32) (has_schemes : Bool)
        → build_rest_config libraries opts (set_logger log ∷ [])
          ≡ (some (ok cfg), set_logger log ∷ [])
        → (start libraries has_schemes opts []
            ≡ make_calls (start_calls opts log cfg has_schemes) (set_logger log ∷ []))
          × (cfg.qps ≡ opts.client_qps)
          × (cfg.burst ≡ opts.client_burst)
    start_lem cfg has_schemes configured =
        let limits = limits-build_rest_config opts cfg (set_logger log ∷ []) _ configured in
        (start_all cfg has_schemes configured, limits.0, limits.1)

    nil_config :
        opts.in_cluster ≡ false
        → opts.kube_context == "" ≡ false
        → ((rules : LoadingRules) → (libraries.client_config rules opts.kube_context).0 ≡ none)
        → build_rest_config libraries opts (set_logger log ∷ []) ≡ (none, set_logger log ∷ [])
    unfolding build_rest_config with_limits panic
    nil_config outside named bad = simp (
      outside,
      named,
      bad (if not (opts.kube_config == "") then explicit_path opts.kube_config else default_rules),
    )

    -- Outside a cluster, a context that client-go cannot make a config of stops the process with a
    -- panic, not with the error that client-go returned: the limits are written to a config that
    -- is nil. No manager has been made by then.
    pub bad_context_panics :
        (has_schemes : Bool)
        → opts.in_cluster ≡ false
        → opts.kube_context == "" ≡ false
        → ((rules : LoadingRules) → (libraries.client_config rules opts.kube_context).0 ≡ none)
        → start libraries has_schemes opts [] ≡ (none, set_logger log ∷ [])
    unfolding start
    bad_context_panics has_schemes outside named bad =
        simp (logged, nil_config outside named bad) (unfold start wrapping in refl)
