-- ===== src/Fsm/ClaimBuilder.antt =====
-- pkg/fsm/claim_builder.go: how the controllers of a claim and of the claimed type are put together.
-- The conventions are those of the builder of one FSM controller. A nil dereference is `none`.
pub mod Build
pub mod Laws
pub mod Watched
use achilles_sdk.Api.{Env, Gvk, Object, ObjectKey, Try, err, ok, ref_key}
use achilles_sdk.Fsm.Builder.{Watch, WatchRemoteKind, not_registered}
use achilles_sdk.Fsm.ClaimReconciler.{BeforeDelete}
use achilles_sdk.Fsm.Handler.{TriggerType}
use achilles_sdk.Prelude.{
  List, Option, [], if◌then◌else◌, nat_eq, none, some, string_eq, ℕ, ◌++◌, ◌∷◌,
}

pub record ClaimBuilder (X : Type 0) : Type 0 where
  pub obj : Object
  pub claim : Object
  pub initial_state : Option ℕ
  pub finalizer_state : Option ℕ
  pub before_delete : Option BeforeDelete
  pub managed_types : List Gvk
  pub controller_fns : List X
  pub watches : List (Watch X)
  pub watch_remote_kinds : List (WatchRemoteKind X)
  pub watch_raw_sources : List X
  pub opts : List X
  pub max_concurrent_reconciles : ℕ

-- The function that maps an event of a claimed object to requests for its claim. A claimed object
-- has a nil claim reference until a claim is bound to it: `ObjectKey()` then dereferences nil.
unfoldable pub claim_requests : Object → Option (List ObjectKey)
claim_requests obj = elim obj.claim_ref [ none ↦ none | some ref ↦ some (ref_key ref ∷ []) ]

-- The function that maps an event of a claim to requests for its claimed object.
unfoldable pub claimed_requests : Object → List ObjectKey
claimed_requests obj = elim obj.claimed_ref [ none ↦ [] | some ref ↦ ref_key ref ∷ [] ]

module _ {X : Type 0} where
  unfoldable pub new_claim_builder : Object → Object → Option ℕ → ClaimBuilder X
  new_claim_builder obj claim initial_state = record {
    obj = obj;
    claim = claim;
    initial_state = initial_state;
    finalizer_state = none;
    before_delete = none;
    managed_types = [];
    controller_fns = [];
    watches = [];
    watch_remote_kinds = [];
    watch_raw_sources = [];
    opts = [];
    max_concurrent_reconciles = 0;
  }

  unfoldable pub manages : Env → List Gvk → ClaimBuilder X → Try (ClaimBuilder X)
  manages env [] b = ok b
  manages env (gvk ∷ gvks) b =
      let rest = manages env gvks (record b { managed_types = b.managed_types ++ gvk ∷ [] }) in
      if env.recognizes gvk then rest else err (not_registered env gvk)

  unfoldable pub with_controller_handle : X → ClaimBuilder X → ClaimBuilder X
  with_controller_handle fn b = record b { controller_fns = b.controller_fns ++ fn ∷ [] }

  unfoldable pub with_finalizer_state : Option ℕ → ClaimBuilder X → ClaimBuilder X
  with_finalizer_state state b = record b { finalizer_state = state }

  unfoldable pub with_before_delete : Option BeforeDelete → ClaimBuilder X → ClaimBuilder X
  with_before_delete hook b = record b { before_delete = hook }

  unfoldable pub with_max_concurrent_reconciles : ℕ → ClaimBuilder X → ClaimBuilder X
  with_max_concurrent_reconciles n b = record b { max_concurrent_reconciles = n }

  unfoldable pub watches : Object → X → TriggerType → List X → ClaimBuilder X → ClaimBuilder X
  watches object handler trigger_type opts b = record b {
    watches =
        b.watches
        ++ record { object = object; handler = handler; opts = opts; trigger_type = trigger_type }
          ∷ [];
  }

  unfoldable pub watches_remote_kind :
      X → Object → X → TriggerType → List X → ClaimBuilder X → ClaimBuilder X
  watches_remote_kind cache obj handler trigger_type predicates b = record b {
    watch_remote_kinds =
        b.watch_remote_kinds
        ++ record {
          cache = cache;
          obj = obj;
          handler = handler;
          predicates = predicates;
          trigger_type = trigger_type;
        }
          ∷ [];
  }

  unfoldable pub watches_raw_source : X → ClaimBuilder X → ClaimBuilder X
  watches_raw_source src b = record b { watch_raw_sources = b.watch_raw_sources ++ src ∷ [] }

  unfoldable pub with_event_filter_option : X → ClaimBuilder X → ClaimBuilder X
  with_event_filter_option predicate b = record b { opts = b.opts ++ predicate ∷ [] }
