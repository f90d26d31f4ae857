-- ===== src/Fsm/Reconciler/Termination.antt =====
-- Every reconciliation ends (pkg/fsm/internal/reconciler.go).
use achilles_sdk.Api.{
  Env, History, Object, ObjectKey, Try, empty_object, err, ok, call, get, metric, record_suspend,
}
use achilles_sdk.Fsm.Machine.{state_at}
use achilles_sdk.Fsm.Machine.Termination.{IsNamed, run_states_total, unseen}
use achilles_sdk.Fsm.Reconciler.{
  Reconciled, Reconciler, after_add_finalizer, concluded, deleted_state_name, first_state,
  reconcile, reconcile_active, reconcile_fetched, reconcile_request, run_machine,
}
use achilles_sdk.Fsm.Types.Result.{zero_result}
use achilles_sdk.Meta.{add_finalizer, has_suspend_label, was_deleted}
use achilles_sdk.Prelude.{
  Bool-cases, List, Option, Option-cases, String, [], arith, contains, inl, inr, is_some, length,
  none, refl, some, string_eq, true, ℕ, ◌<◌, ◌∷◌, ◌≡◌, ◌≤◌,
}

module _ (env : Env) (r : Reconciler) (names : List String)
    (known : (i : ℕ) → contains names (r.machine.states i).name ≡ true)
    (deleted : contains names deleted_state_name ≡ true) (fuel : ℕ)
    (enough : length names < fuel) where
  state_at-IsNamed : (o : Option ℕ) → IsNamed env r.machine names (state_at env r.machine o)
  state_at-IsNamed none = tt
  state_at-IsNamed (some i) = known i

  pub first_state-IsNamed : (obj : Object) → IsNamed env r.machine names (first_state env r obj)
  unfolding first_state
  first_state-IsNamed obj = elim (Bool-cases (was_deleted obj)) [
    | inl d ↦ elim (Option-cases r.finalizer_state) [
      | inl e ↦ rw (d, e) deleted
      | inr (i, e) ↦ rw (d, e) (known i)
    ]
    | inr d ↦ rw d (state_at-IsNamed r.initial_state)
  ]

  unseen-nil : (ns : List String) → unseen ns [] ≤ length ns
  unseen-nil [] = omega arith
  unseen-nil (n ∷ ns) = omega (arith, unseen-nil ns)

  run_machine_total : (obj : Object) (h : History) → is_some (run_machine env r fuel obj h).0 ≡ true
  unfolding run_machine
  run_machine_total obj h = ground (
    arith,
    run_states_total env r.machine fuel names (first_state env r obj)
        (record {
          obj = obj;
          conditions = empty_object r.gvk;
          seen_states = [];
          requeue_after_completion = zero_result;
        })
        h known (first_state-IsNamed obj) (omega (arith, unseen-nil names)),
  )

  after_add_finalizer_total :
      (o : Try Object) (h : History) → is_some (after_add_finalizer env r fuel o h).0 ≡ true
  unfolding after_add_finalizer
  after_add_finalizer_total (ok obj) h = run_machine_total obj h
  after_add_finalizer_total (err e) h = refl

  reconcile_active_total :
      (obj : Object) (h : History) → is_some (reconcile_active env r fuel obj h).0 ≡ true
  unfolding reconcile_active
  reconcile_active_total obj h =
      let (o, h') = add_finalizer env obj "infrared.reddit.com/fsm" h in
      ground (arith, run_machine_total obj h, after_add_finalizer_total o h')

  reconcile_fetched_total :
      (req : ObjectKey) (o : Try Object) (h : History)
      → is_some (reconcile_fetched env r fuel req o h).0 ≡ true
  unfolding reconcile_fetched
  reconcile_fetched_total req (ok obj) h =
      ground (
        arith,
        reconcile_active_total obj (metric (record_suspend obj (has_suspend_label obj)) ∷ h),
      )
  reconcile_fetched_total req (err e) h = ground arith

  concluded_total :
      (req : ObjectKey) (o : Option Reconciled) (h : History)
      → is_some o ≡ true
      → is_some (concluded env r req o h).0 ≡ true
  unfolding concluded
  concluded_total req none h p = cc
  concluded_total req (some rec) h p = refl

  -- `Reconcile` returns: with fuel for more rounds than there are names of states, the name of the
  -- state of deleted objects among them, it has an outcome for every request, whatever the
  -- transition functions and the API server do.
  pub reconcile_request_total :
      (req : ObjectKey) (h : History) → is_some (reconcile_request env r fuel req h).0 ≡ true
  unfolding reconcile_request reconcile call
  reconcile_request_total req h =
      let (rec, h') = reconcile env r fuel req h in
      concluded_total req rec h'
        (reconcile_fetched_total req (env.respond h (get r.gvk req)) (get r.gvk req ∷ h))
