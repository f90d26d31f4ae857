-- ===== src/Bootstrap.antt =====
-- pkg/bootstrap/bootstrap.go: the options of a controller's process, and its flags. Floating-point
-- numbers are a parameter, a duration is a number of seconds, and usage texts are left out.
pub mod Calls
pub mod Start
pub mod Laws
use achilles_sdk.Prelude.{Bool, List, String, [], false, not, true, ℕ, ◌∷◌}

abbrev pub err_no_valid_kube_context : String
err_no_valid_kube_context = "kubeconfig context must be specified when not in cluster"

abbrev pub err_kube_context_set_in_cluster : String
err_kube_context_set_in_cluster = "kubeconfig context can not be specified when in cluster"

pub record Options (Float32 : Type 0) : Type 0 where
  pub in_cluster : Bool
  pub kube_context : String
  pub kube_config : String
  pub metrics_addr : String
  pub health_addr : String
  pub verbose_mode : Bool
  pub dev_logger : Bool
  pub client_qps : Float32
  pub client_burst : ℕ
  pub sync_period : ℕ
  pub leader_election : Bool
  pub leader_election_id : String
  pub leader_election_namespace : String
  pub leader_election_renew_deadline : ℕ
  pub leader_election_lease_duration : ℕ

-- A registered flag: its type and default.
pub data Flag (Float32 : Type 0) : Type 0 where
  bool_flag : Bool → Flag Float32
  string_flag : String → Flag Float32
  float_flag : Float32 → Flag Float32
  int_flag : ℕ → Flag Float32
  duration_flag : ℕ → Flag Float32

module _ {Float32 : Type 0} (five : Float32) where
  -- AddToFlags, on whatever options: pflag sets each variable to its default as it registers it.
  unfoldable pub add_to_flags : Options Float32
  add_to_flags = record {
    in_cluster = false;
    kube_context = "";
    kube_config = "";
    metrics_addr = ":8080";
    health_addr = ":8081";
    verbose_mode = true;
    dev_logger = true;
    client_qps = five;
    client_burst = 10;
    sync_period = 36000;
    leader_election = false;
    leader_election_id = "";
    leader_election_namespace = "";
    leader_election_renew_deadline = 10;
    leader_election_lease_duration = 15;
  }

  -- The flags that it registers, in their order.
  unfoldable pub added_flags : List (String × Flag Float32)
  unfolding add_to_flags
  added_flags =
      let o = add_to_flags in
      ("incluster", bool_flag o.in_cluster)
      ∷ ("kubecontext", string_flag o.kube_context)
      ∷ ("kubeconfig", string_flag o.kube_config)
      ∷ ("metrics-addr", string_flag o.metrics_addr)
      ∷ ("health-addr", string_flag o.health_addr)
      ∷ ("verbose", bool_flag o.verbose_mode)
      ∷ ("dev-logging", bool_flag o.dev_logger)
      ∷ ("client-qps", float_flag o.client_qps)
      ∷ ("client-burst", int_flag o.client_burst)
      ∷ ("sync-period", duration_flag o.sync_period)
      ∷ ("leader-election", bool_flag o.leader_election)
      ∷ ("leader-election-id", string_flag o.leader_election_id)
      ∷ ("leader-election-namespace", string_flag o.leader_election_namespace)
      ∷ ("renew-deadline", duration_flag o.leader_election_renew_deadline)
      ∷ ("lease-duration", duration_flag o.leader_election_lease_duration)
      ∷ []
