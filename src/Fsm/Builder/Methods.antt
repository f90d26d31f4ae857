-- ===== src/Fsm/Builder/Methods.antt =====
-- pkg/fsm/builder.go: the methods that a builder is filled in with.
use achilles_sdk.Api.{Env, Gvk, Object, Try, err, ok}
use achilles_sdk.Fsm.Handler.{TriggerType}
use achilles_sdk.Prelude.{
  List, Option, [], false, if◌then◌else◌, nat_eq, none, string_eq, true, ℕ, ◌++◌, ◌∷◌,
}
use achilles_sdk.Fsm.Builder.{Builder, no_reconciler_options, not_registered, ReconcilerOptions}

module _ {X : Type 0} where
  unfoldable pub new_builder : Object → Option ℕ → Builder X
  new_builder obj initial_state = record {
    obj = obj;
    initial_state = initial_state;
    finalizer_state = none;
    managed_types = [];
    controller_fns = [];
    watches = [];
    watch_remote_kinds = [];
    watch_raw_sources = [];
    opts = [];
    max_concurrent_reconciles = 0;
    reconciler_options = no_reconciler_options;
    skip_name_validation = false;
  }

  unfoldable pub manages_with_predicate : Env → Gvk → List X → Builder X → Try (Builder X)
  manages_with_predicate env gvk predicates b =
      if env.recognizes gvk
      then ok (record b {
        managed_types = b.managed_types ++ record { gvk = gvk; predicates = predicates } ∷ [];
      })
      else err (not_registered env gvk)

  unfoldable pub manages : Env → List Gvk → Builder X → Try (Builder X)
  manages env [] b = ok b
  manages env (gvk ∷ gvks) b =
      let rest = manages env gvks (record b {
        managed_types = b.managed_types ++ record { gvk = gvk; predicates = [] } ∷ [];
      }) in
      if env.recognizes gvk then rest else err (not_registered env gvk)

  unfoldable pub with_controller_handle : X → Builder X → Builder X
  with_controller_handle fn b = record b { controller_fns = b.controller_fns ++ fn ∷ [] }

  unfoldable pub with_finalizer_state : Option ℕ → Builder X → Builder X
  with_finalizer_state state b = record b { finalizer_state = state }

  unfoldable pub with_reconciler_options : ReconcilerOptions → Builder X → Builder X
  with_reconciler_options options b = record b { reconciler_options = options }

  unfoldable pub with_max_concurrent_reconciles : ℕ → Builder X → Builder X
  with_max_concurrent_reconciles n b = record b { max_concurrent_reconciles = n }

  unfoldable pub watches : Object → X → TriggerType → List X → Builder X → Builder X
  watches object handler trigger_type opts b = record b {
    watches =
        b.watches
        ++ record { object = object; handler = handler; opts = opts; trigger_type = trigger_type }
          ∷ [];
  }

  unfoldable pub watches_remote_kind : X → Object → X → TriggerType → List X → Builder X → Builder X
  watches_remote_kind cache obj handler trigger_type predicates b = record b {
    watch_remote_kinds =
        b.watch_remote_kinds
        ++ record {
          cache = cache;
          obj = obj;
          handler = handler;
          predicates = predicates;
          trigger_type = trigger_type;
        }
          ∷ [];
  }

  unfoldable pub watches_raw_source : X → Builder X → Builder X
  watches_raw_source src b = record b { watch_raw_sources = b.watch_raw_sources ++ src ∷ [] }

  unfoldable pub with_event_filter_option : X → Builder X → Builder X
  with_event_filter_option predicate b = record b { opts = b.opts ++ predicate ∷ [] }

  unfoldable pub with_skip_name_validation : Builder X → Builder X
  with_skip_name_validation b = record b { skip_name_validation = true }
