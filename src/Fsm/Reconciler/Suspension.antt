-- ===== src/Fsm/Reconciler/Suspension.antt =====
-- Reconciliation of an object that carries the suspend label, and of one that is gone.
use achilles_sdk.Api.{
  Env, History, Object, ObjectKey, Request, Try, call, create, create_dry_run, delete,
  delete_foreground, dpanic, err, get, metric, ok, patch, patch_status, record_suspend, update,
  update_status,
}
use achilles_sdk.Fsm.Reconciler.{
  Reconciler, after_metrics_get, conclude, concluded, reconcile, reconcile_fetched,
  reconcile_request, record_conditions, record_metrics,
}
use achilles_sdk.Fsm.Types.Result
use achilles_sdk.Fsm.Types.Result.{Outcome, done_result, no_requeue}
use achilles_sdk.Meta.{has_suspend_label}
use achilles_sdk.Prelude.{
  All, List, String, [], ap, arith, eq_refl, refl, some, string_eq, true, ℕ, ◌++◌, ◌∷◌, ◌≡◌,
}

-- Reads and metrics: what changes nothing on the API server.
abbrev pub IsObservation : Request → Type 0
IsObservation (get _ _) = Unit
IsObservation (create _) = ⊥
IsObservation (create_dry_run _) = ⊥
IsObservation (update _) = ⊥
IsObservation (patch _) = ⊥
IsObservation (delete _) = ⊥
IsObservation (delete_foreground _) = ⊥
IsObservation (update_status _) = ⊥
IsObservation (patch_status _) = ⊥
IsObservation (metric _) = Unit
IsObservation (dpanic _) = ⊥

-- The second history is the first with observations on top.
abbrev pub Observes : History → History → Type 0
Observes h h' = (added : List Request) × (h' ≡ added ++ h) × All IsObservation added

observe : {h h' : History} (q : Request) → IsObservation q → Observes h h' → Observes h (q ∷ h')
observe q p (added, e, all) = (q ∷ added, ap (λ t. q ∷ t) e, (p, all))

module _ (env : Env) (r : Reconciler) where
  record_conditions-Observes :
      (obj : Object) (types : List String) (h h' : History)
      → Observes h h'
      → Observes h (record_conditions env r obj types h')
  unfolding record_conditions
  record_conditions-Observes obj [] h h' o = o
  record_conditions-Observes obj (t ∷ types) h h' o =
      record_conditions-Observes obj types h _ (observe _ tt o)

  -- The deferred function of `Reconcile` only reads and counts.
  pub record_metrics-Observes :
      (req : ObjectKey) (outcome : Outcome) (h h' : History)
      → Observes h h'
      → Observes h (record_metrics env r req outcome h')
  unfolding record_metrics call
  record_metrics-Observes req outcome h h' o =
      go (env.respond h' (get r.gvk req)) (observe (get r.gvk req) tt o)
    where
      go :
          (t : Try Object)
          → Observes h (get r.gvk req ∷ h')
          → Observes h (after_metrics_get env r req outcome t (get r.gvk req ∷ h'))
      go (ok obj) o =
          unfold after_metrics_get in
          observe _ tt (observe _ tt (record_conditions-Observes obj r.condition_types h _ o))
      go (err e) o = unfold after_metrics_get in o

  -- An object with a suspend label that is not empty is left alone: `Reconcile` asks for no requeue,
  -- and all that it adds to the history are reads and metrics, whatever the object's deletion
  -- timestamp and finalizers.
  pub suspended_is_left_alone :
      (fuel : ℕ) (req : ObjectKey) (obj : Object) (h : History)
      → env.respond h (get r.gvk req) ≡ ok obj
      → has_suspend_label obj ≡ true
      → ((reconcile_request env r fuel req h).0 ≡ some no_requeue)
        × Observes h (reconcile_request env r fuel req h).1
  unfolding reconcile_request reconcile call reconcile_fetched concluded conclude Result.get
      done_result
  suspended_is_left_alone fuel req obj h found suspended =
      rw (found, suspended)
        (
          ground (arith, eq_refl ""),
          record_metrics-Observes req no_requeue h _ (
              observe (metric (record_suspend obj true)) tt
                (observe (get r.gvk req) tt ([], refl, tt))),
        )
