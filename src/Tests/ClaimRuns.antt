-- ===== src/Tests/ClaimRuns.antt =====
-- Runs of the reconciliation of a claim.
use achilles_sdk.Prelude.{
  ap, arith, eq_iff, All, List, [], nat_eq, none, refl, some, string_eq, ◌++◌, ◌≡◌,
}
use achilles_sdk.Api.{Object, Request, err, plain}
use achilles_sdk.Fsm.ClaimReconciler.{ClaimReconciler, reconcile_claim}
use achilles_sdk.Fsm.ClaimReconciler.Bound.{IsForeign, foreign_claim_is_left_alone, read_both}
use achilles_sdk.Fsm.ClaimReconciler.Suspended.{DeletesNothing, suspended_claim-DeletesNothing}
use achilles_sdk.GoMap
use achilles_sdk.Meta.{has_suspend_label, must_typed_object_ref}
use achilles_sdk.Tests.World.{
  config_gvk, deleted_web, one_state, server_with, suspended_web, web_ref, web_request,
}

abbrev claims : ClaimReconciler
claims = record {
  name = "Claim";
  claim_gvk = config_gvk;
  claimed_gvk = config_gvk;
  application = one_state.application;
  before_delete = none;
}

-- The claim is the claimed object too: it refers to itself, or to another object.
abbrev bound_web : Object
bound_web = record deleted_web {
  claimed_ref = some web_ref;
  claim_ref = some web_ref;
  creation_timestamp = some 1;
}

abbrev foreign_web : Object
foreign_web = record deleted_web {
  claimed_ref = some web_ref;
  claim_ref = some (record web_ref { name = "other" });
}

foreign_web-IsForeign : IsForeign foreign_web foreign_web
unfolding must_typed_object_ref
foreign_web-IsForeign = (
  record web_ref { name = "other" },
  refl,
  λ same. ground (arith, ap (λ ref. ref.name) same, eq_iff "other" "web"),
)

foreign_claim_is_left_alone_example :
    reconcile_claim (server_with foreign_web) claims web_request [] ≡ (
      err (plain "claimed not owned by claim"),
      read_both (server_with foreign_web) claims web_request foreign_web [],
    )
foreign_claim_is_left_alone_example =
    foreign_claim_is_left_alone (server_with foreign_web) claims web_request foreign_web [] refl
      foreign_web refl foreign_web-IsForeign

suspended_claim-DeletesNothing_example :
    (added : List Request) × ((reconcile_claim (server_with suspended_web) claims web_request []).1
      ≡ added ++ [])
    × All DeletesNothing added
unfolding has_suspend_label GoMap.lookup
suspended_claim-DeletesNothing_example =
    suspended_claim-DeletesNothing (server_with suspended_web) claims web_request suspended_web []
      refl refl
