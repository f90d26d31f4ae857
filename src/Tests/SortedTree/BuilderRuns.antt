-- ===== src/Tests/SortedTree/BuilderRuns.antt =====
-- Runs of pkg/fsm/builder.go and pkg/fsm/claim_builder.go.
use achilles_sdk.Api.{Error, Gvk, empty_object, gvk_eq}
use achilles_sdk.Fsm.Builder.{Builder, Call, owned_calls}
use achilles_sdk.Fsm.Builder.Methods.{new_builder}
use achilles_sdk.Fsm.Builder.Build.{build}
use achilles_sdk.Meta.{new_object_for_gvk}
use achilles_sdk.Fsm.Builder.Watched.{IsComplete, build-IsComplete}
use achilles_sdk.Fsm.ClaimBuilder.{ClaimBuilder, new_claim_builder}
use achilles_sdk.Fsm.ClaimBuilder.Build
use achilles_sdk.Fsm.ClaimBuilder.Watched.{IsClaimComplete, build-IsClaimComplete}
use achilles_sdk.Fsm.Handler.{trigger_type_relative}
use achilles_sdk.Fsm.Metrics.Recorder.{Metrics, must_make_metrics_with_options}
use achilles_sdk.Tests.World.{config_gvk, empty_server, web}
use achilles_sdk.Tests.SortedTree.{start_tree}
use achilles_sdk.Tests.SortedTree.Series.{series_map}
use achilles_sdk.Prelude.{List, Option, [], nat_eq, none, refl, some, string_eq, ℕ, ◌∷◌, ◌≡◌}

abbrev secret_gvk : Gvk
secret_gvk = record { group = ""; version = "v1"; kind = "Secret" }

-- A controller that manages two types, one with a predicate, and has other watches.
abbrev managing : Builder ℕ
managing = record (new_builder web (some 0)) {
  managed_types =
      record { gvk = secret_gvk; predicates = 7 ∷ [] }
      ∷ record { gvk = config_gvk; predicates = [] }
      ∷ [];
  watches =
      record { object = web; handler = 4; opts = 5 ∷ []; trigger_type = trigger_type_relative }
      ∷ [];
  watch_raw_sources = 9 ∷ [];
  controller_fns = 2 ∷ 3 ∷ [];
}

abbrev metrics : Metrics empty_server series_map start_tree
metrics =
    must_make_metrics_with_options empty_server series_map start_tree
      (record { condition_types = []; disable_metrics = [] })

-- controller-runtime builds every controller.
abbrev builds : List (Call ℕ) → Option Error
builds calls = none

builds_it : (build empty_server series_map start_tree builds managing metrics).error ≡ none
unfolding build owned_calls new_builder new_object_for_gvk
builds_it = refl

build-IsComplete_example :
    IsComplete empty_server series_map start_tree builds managing metrics
      (build empty_server series_map start_tree builds managing metrics)
build-IsComplete_example =
    build-IsComplete empty_server series_map start_tree builds managing metrics builds_it

abbrev claims : ClaimBuilder ℕ
claims = record (new_claim_builder web (empty_object secret_gvk) (some 0)) {
  managed_types = config_gvk ∷ [];
}

builds_both : (Build.build empty_server series_map start_tree builds claims metrics).error ≡ none
unfolding Build.build owned_calls new_claim_builder new_object_for_gvk
builds_both = refl

build-IsClaimComplete_example :
    IsClaimComplete empty_server series_map start_tree builds claims metrics
      (Build.build empty_server series_map start_tree builds claims metrics)
build-IsClaimComplete_example =
    build-IsClaimComplete empty_server series_map start_tree builds claims metrics builds_both
