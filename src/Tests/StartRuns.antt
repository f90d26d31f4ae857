-- ===== src/Tests/StartRuns.antt =====
-- Runs of pkg/bootstrap: libraries in which everything succeeds but the health checks, and one where
-- no context can be loaded. A logger is a text, and a floating-point number a number.
use achilles_sdk.Api.{err, ok, plain, wrap}
use achilles_sdk.Bootstrap.{Options, add_to_flags, err_no_valid_kube_context}
use achilles_sdk.Bootstrap.Calls.{Libraries, RestConfig, set_logger}
use achilles_sdk.Bootstrap.Laws.{make_calls, start_calls, start_lem}
use achilles_sdk.Bootstrap.Start.{build_rest_config, setup_logging, start}
use achilles_sdk.Prelude.{String, [], none, refl, some, string_eq, true, ℕ, ◌∷◌, ◌≡◌}

abbrev defaults : Options ℕ
unfolding add_to_flags
defaults = add_to_flags 5

abbrev options : Options ℕ
options = record defaults { kube_context = "dev" }

abbrev loaded : RestConfig ℕ
loaded = record { rest = "server"; qps = 0; burst = 0 }

abbrev limited : RestConfig ℕ
limited = record { rest = "server"; qps = 5; burst = 10 }

abbrev libraries : Libraries ℕ String
libraries = record {
  new_development = ok "dev";
  new_raw = λ opts. "raw";
  in_cluster_config = ok loaded;
  client_config = λ rules context. (some loaded, none);
  respond = λ calls c. none;
}

start_example :
    (start libraries true options []
      ≡ make_calls libraries
          (start_calls libraries options "dev" limited true)
          (set_logger "dev" ∷ []))
    × (◌≡◌ {A = ℕ} limited.qps 5)
    × (◌≡◌ {A = ℕ} limited.burst 10)
unfolding setup_logging build_rest_config defaults
start_example = start_lem libraries options "dev" refl limited true refl

-- With the defaults of the flags, the process does not start.
defaults_fail :
    (start libraries true defaults []).0
    ≡ some (err (wrap "building k8s client config" (plain err_no_valid_kube_context)))
unfolding start defaults
defaults_fail = refl
