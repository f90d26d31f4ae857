-- ===== src/Fsm/Builder/Watched.antt =====
-- All that the function which Build of pkg/fsm/builder.go returns asks of controller-runtime.
use achilles_sdk.GoMap
use achilles_sdk.Api.{Env, Error, Gvk, empty_object, gvk_eq}
use achilles_sdk.Meta.{new_object_for_gvk}
use achilles_sdk.Fsm.Builder.{
  Builder, Call, custom_calls, ManagedType, Watch, WatchRemoteKind, build_controller, controller_fn,
  for_object, owned_call, owned_calls, remote_calls, watch_calls, watch_object, watch_owned,
  watch_raw_source, watch_remote, with_event_filter, with_options,
}
use achilles_sdk.Fsm.Builder.Build.{
  Built, after_build, after_owned, build, first_calls, later_calls,
}
use achilles_sdk.Fsm.ClaimBuilder.Laws.{initialize_keeps}
use achilles_sdk.Fsm.Handler.{trigger_type_child}
use achilles_sdk.Fsm.Metrics.BTree.{BTree}
use achilles_sdk.Fsm.Metrics.Prometheus.{MetricVecs}
use achilles_sdk.Fsm.Metrics.StartTimes.{before}
use achilles_sdk.Fsm.Metrics.Recorder.{Metrics}
use achilles_sdk.Prelude.{
  All, Bool-cases, List, Option, [], ap, arith, inl, inr, map, nat_eq, none, refl, some, string_eq,
  true, ◌++◌, ◌==◌, ◌||◌, ◌∷◌, ◌≡◌,
}

module _ {X : Type 0} where
  -- Owned objects of a managed type are watched with the type's predicates, as children.
  abbrev pub watch_managed : ManagedType X → Call X
  watch_managed t = watch_owned (empty_object t.gvk) t.predicates trigger_type_child

  abbrev pub watch_custom : Watch X → Call X
  watch_custom w = watch_object w.object w.handler w.trigger_type w.opts

  abbrev pub watch_other_cluster : WatchRemoteKind X → Call X
  watch_other_cluster w = watch_remote w.cache w.obj w.handler w.trigger_type w.predicates

  -- The watches of the managed types, the custom watches, those of other clusters, the raw sources
  -- and the filters, each kind in the order in which it was added.
  abbrev pub all_watches :
      List (ManagedType X)
      → List (Watch X)
      → List (WatchRemoteKind X)
      → List X
      → List X
      → List (Call X)
  all_watches types ws remotes sources filters =
      map watch_managed types
      ++ (map watch_custom ws
          ++ map watch_other_cluster remotes
          ++ map watch_raw_source sources
          ++ map with_event_filter filters)

  watch_calls_lem : (ws : List (Watch X)) → watch_calls ws ≡ map watch_custom ws
  watch_calls_lem [] = refl
  watch_calls_lem (w ∷ ws) = ap (λ l. watch_custom w ∷ l) (watch_calls_lem ws)

  remote_calls_lem : (ws : List (WatchRemoteKind X)) → remote_calls ws ≡ map watch_other_cluster ws
  remote_calls_lem [] = refl
  remote_calls_lem (w ∷ ws) = ap (λ l. watch_other_cluster w ∷ l) (remote_calls_lem ws)

  -- The loop over the managed types ends without an error exactly with all of them registered.
  pub owned_calls_lem :
      (env : Env) (types : List (ManagedType X))
      → (owned_calls env types).1 ≡ none
      → ((owned_calls env types).0 ≡ map watch_managed types)
        × All (λ t. env.recognizes t.gvk ≡ true) types
  unfolding owned_calls owned_call new_object_for_gvk
  owned_calls_lem env [] e = (refl, tt)
  owned_calls_lem env (t ∷ types) e = elim (Bool-cases (env.recognizes t.gvk)) [
    | inl known ↦
        let (same, all) = owned_calls_lem env types (ground (arith, e, known)) in
        (rw known (ap (λ l. watch_managed t ∷ l) same), (known, all))
    | inr unknown ↦ absurd (ground (arith, e, unknown))
  ]

  pub watched_lem :
      (types : List (ManagedType X)) (ws : List (Watch X)) (remotes : List (WatchRemoteKind X))
      (sources filters : List X) (owned : List (Call X))
      → owned ≡ map watch_managed types
      → owned ++ custom_calls ws remotes sources filters
        ≡ all_watches types ws remotes sources filters
  watched_lem types ws remotes sources filters owned same =
      rw (same, watch_calls_lem ws, remote_calls_lem remotes) refl

module _ {X : Type 0} (env : Env) (p : MetricVecs) (t : BTree before)
    (answer : List (Call X) → Option Error) (b : Builder X) (metrics : Metrics env p t) where
  -- The whole of what is asked for.
  abbrev pub all_calls : List (Call X)
  all_calls =
      (with_options b.skip_name_validation b.max_concurrent_reconciles
        ∷ for_object b.obj
        ∷ all_watches b.managed_types b.watches b.watch_remote_kinds b.watch_raw_sources b.opts)
      ++ build_controller ∷ map controller_fn b.controller_fns

  -- All types are registered, all calls were made, and the type of the controller is added to those
  -- with start times.
  abbrev pub IsComplete : Built X env p t → Type 0
  IsComplete built =
      All (λ m. env.recognizes m.gvk ≡ true) b.managed_types
      × (built.calls ≡ all_calls)
      × ((asked : Gvk)
          → GoMap.member asked built.metrics.processing_start_times_by_gvk
            ≡ (b.obj.gvk == asked || GoMap.member asked metrics.processing_start_times_by_gvk))

  complete_lem :
      (owned : List (Call X)) (failed : Option Error)
      → ((failed ≡ none)
          → (owned ≡ map watch_managed b.managed_types)
            × All (λ m. env.recognizes m.gvk ≡ true) b.managed_types)
      → (after_owned env p t answer b owned metrics failed).error ≡ none
      → IsComplete (after_owned env p t answer b owned metrics failed)
  unfolding after_owned
  complete_lem owned (some e) loop f = ground arith
  complete_lem owned none loop f = finish (answer (first_calls b ++ owned ++ later_calls b)) f
    where
      finish :
          (o : Option Error)
          → (after_build env p t b (first_calls b ++ owned ++ later_calls b) metrics o).error ≡ none
          → IsComplete (after_build env p t b (first_calls b ++ owned ++ later_calls b) metrics o)
      finish (some e) f = unfold after_build in ground arith
      finish none f =
          unfold after_build in
          (
            (loop refl).1,
            ap (λ l. (first_calls b ++ l) ++ build_controller ∷ map controller_fn b.controller_fns)
                (watched_lem b.managed_types b.watches b.watch_remote_kinds b.watch_raw_sources
                  b.opts owned (loop refl).0),
            λ asked. initialize_keeps env p t b.obj.gvk asked metrics,
          )

  -- If Build succeeds, every managed type is registered with the scheme, and what has been asked of
  -- controller-runtime is, in this order: the options, the controller's own type, a watch of owned
  -- objects with its predicates for each managed type, each custom watch, each watch of another
  -- cluster, each raw source and each filter, all as they were added, the controller, and each of
  -- the functions on it. The metrics have start times for that type and those that had them before.
  pub build-IsComplete :
      (build env p t answer b metrics).error ≡ none → IsComplete (build env p t answer b metrics)
  unfolding build
  build-IsComplete e =
      complete_lem (owned_calls env b.managed_types).0 (owned_calls env b.managed_types).1
        (owned_calls_lem env b.managed_types) e
