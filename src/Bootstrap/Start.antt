-- ===== src/Bootstrap/Start.antt =====
-- pkg/bootstrap/bootstrap.go: starting the process. The context that carries the logger to the
-- StartFunc is an argument of the call.
use achilles_sdk.Api.{Error, err, ok, plain, wrap}
use achilles_sdk.Bootstrap.{Options, err_kube_context_set_in_cluster, err_no_valid_kube_context}
use achilles_sdk.Bootstrap.Calls.{
  Code, wrapping, Libraries, LogOption, ManagerOptions, RestConfig, call, ◌>>=◌, ◌>>◌, panic, pure,
  raise, set_logger, new_manager, add_healthz_check, add_readyz_check, add_to_scheme, start_func,
  start_manager, explicit_path, default_rules, level, info_level, debug_level, iso8601_time_encoder,
  use_dev_mode,
}
use achilles_sdk.Prelude.{
  Bool, List, Option, [], if◌then◌else◌, none, not, some, string_eq, true, ◌==◌, ◌∷◌,
}

-- The options of the logger of a process that is not in development mode. The test for that mode
-- stands inside a branch for its opposite.
unfoldable pub raw_log_options : Bool → Bool → List LogOption
raw_log_options verbose_mode dev_logger =
    level (if verbose_mode then debug_level else info_level)
    ∷ iso8601_time_encoder
    ∷ (if dev_logger then use_dev_mode true ∷ [] else [])

module _ {Float32 Logger : Type 0} (libraries : Libraries Float32 Logger) where
  unfoldable pub set_global_logger : Logger → Code Float32 Logger Logger
  set_global_logger base_logger calls = (some (ok base_logger), set_logger base_logger ∷ calls)

  unfoldable pub setup_logging : Bool → Bool → Code Float32 Logger Logger
  unfolding raw_log_options set_global_logger panic
  setup_logging verbose_mode dev_logger =
      if dev_logger
      then elim libraries.new_development [ err e ↦ panic | ok l ↦ set_global_logger l ]
      else set_global_logger (libraries.new_raw (raw_log_options verbose_mode dev_logger))

  -- `cfg.QPS = o.ClientQPS; cfg.Burst = o.ClientBurst; return cfg, err`, which panics if the config
  -- is nil.
  unfoldable pub with_limits :
      Options Float32
      → Option (RestConfig Float32)
      → Option Error
      → Code Float32 Logger (RestConfig Float32)
  unfolding panic pure raise
  with_limits o none e = panic
  with_limits o (some cfg) none = pure (record cfg { qps = o.client_qps; burst = o.client_burst })
  with_limits o (some cfg) (some e) = raise e

  unfoldable pub build_rest_config : Options Float32 → Code Float32 Logger (RestConfig Float32)
  unfolding with_limits raise
  build_rest_config o =
      if o.in_cluster
      then if not (o.kube_context == "")
        then raise (plain err_kube_context_set_in_cluster)
        else elim libraries.in_cluster_config [
          | err e ↦ raise (wrap "building in-cluster kubeconfig" e)
          | ok cfg ↦ with_limits o (some cfg) none
        ]
      else if o.kube_context == ""
      then raise (plain err_no_valid_kube_context)
      else (let rules =
            if not (o.kube_config == "") then explicit_path o.kube_config else default_rules in
          let (cfg, e) = libraries.client_config rules o.kube_context in with_limits o cfg e)

  unfoldable pub manager_options : Options Float32 → ManagerOptions
  manager_options opts = record {
    health_probe_bind_address = opts.health_addr;
    metrics_bind_address = opts.metrics_addr;
    sync_period = opts.sync_period;
    leader_election = opts.leader_election;
    leader_election_id = opts.leader_election_id;
    leader_election_namespace = opts.leader_election_namespace;
    renew_deadline = opts.leader_election_renew_deadline;
    lease_duration = opts.leader_election_lease_duration;
  }

  -- `has_schemes` says that the scheme builder is not nil.
  unfoldable pub build_manager :
      RestConfig Float32 → Logger → Bool → Options Float32 → Code Float32 Logger (Unit {0})
  unfolding manager_options call pure
  build_manager cfg log has_schemes opts = do
    call libraries (wrap "constructing manager") (new_manager cfg log (manager_options opts))
    call libraries (wrap "adding healthz") (add_healthz_check "healthz")
    call libraries (wrap "adding readyz") (add_readyz_check "readyz")
    if has_schemes then call libraries (λ e. e) add_to_scheme else pure tt

  unfoldable pub start : Bool → Options Float32 → Code Float32 Logger (Unit {0})
  unfolding setup_logging build_rest_config build_manager wrapping call
  start has_schemes opts = do
    log ← setup_logging opts.verbose_mode opts.dev_logger
    cfg ← wrapping "building k8s client config" (build_rest_config opts)
    wrapping "building manager" (build_manager cfg log has_schemes opts)
    call libraries (wrap "running start func") (start_func log)
    call libraries (wrap "starting manager") start_manager
