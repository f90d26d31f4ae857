-- ===== src/Fsm/Reconciler.antt =====
-- pkg/fsm/internal/reconciler.go: a reconciliation of one object. Tracing and durations are left out.
-- A response of `Get` is the object that the server has, with the type that was asked for.
pub mod Termination
pub mod Suspension
pub mod Finalizer
pub mod EarlyRemoval
pub mod Active
pub mod Deleted
use achilles_sdk.Api.{
  Env, Error, Gvk, History, Object, ObjectKey, Try, call, create, delete_condition, delete_event,
  delete_readiness, delete_trigger, empty_object, err, get, metric, ok, record_condition,
  record_processing_duration, record_readiness, record_suspend, wrap,
}
use achilles_sdk.Errors.{ignore_already_exists}
use achilles_sdk.Fsm.Machine.{Machine, State, run_states, state_at}
use achilles_sdk.Fsm.Types.Result
use achilles_sdk.Fsm.Types.Result.{
  Outcome, Result, done_result, error_result, is_done, no_requeue, zero_result,
}
use achilles_sdk.Io.Applicator.{apply_status}
use achilles_sdk.Meta.{add_finalizer, has_suspend_label, remove_finalizer, was_deleted}
use achilles_sdk.Status.{new_ready_condition}
use achilles_sdk.Prelude.{
  Bool, List, Option, String, [], contains, if◌then◌else◌, is_some, nat_eq, none, not, some,
  string_eq, ℕ, ◌&&◌, ◌==◌, ◌∷◌,
}

abbrev pub deleted_state_name : String
deleted_state_name = "deleted"

abbrev pub finalizer_key : String
finalizer_key = "infrared.reddit.com/fsm"

-- The fields of fsmReconciler and of types.ReconcilerOptions. `gvk` is the reconciled type.
pub record Reconciler : Type 0 where
  pub machine : Machine
  pub gvk : Gvk
  pub initial_state : Option ℕ
  pub finalizer_state : Option ℕ
  pub create_if_not_found : Bool
  pub create_func : ObjectKey → Option Object
  pub disable_ready_condition : Bool
  pub condition_types : List String

-- types.DefaultCreateFunc
unfoldable pub default_create_func : Gvk → ObjectKey → Option Object
default_create_func gvk req =
    some (record (empty_object gvk) { name = req.name; namespace = req.namespace })

-- What `reconcile` returns: no object and a result, or the object, its conditions and a result.
pub data Reconciled : Type 0 where
  no_object : Result → Reconciled
  reconciled : Object → Object → Result → Reconciled

module _ (env : Env) (r : Reconciler) where
  -- DeletedStateFor
  unfoldable pub deleted_state : State
  deleted_state = record { name = deleted_state_name; transition = none; condition = env.deleting }

  unfoldable pub delete_conditions : Object → List String → History → History
  delete_conditions obj [] h = h
  delete_conditions obj (t ∷ types) h =
      delete_conditions obj types (metric (delete_condition obj t) ∷ h)

  -- Metrics of an object that is gone.
  unfoldable pub deregister : ObjectKey → History → Reconciled × History
  unfolding delete_conditions
  deregister req h =
      let obj = record (empty_object r.gvk) { name = req.name; namespace = req.namespace } in
      (
        no_object done_result,
        delete_conditions obj r.condition_types (
            metric (delete_event obj)
            ∷ metric (delete_readiness obj)
            ∷ metric (delete_trigger req r.machine.name)
            ∷ h),
      )

  -- The error of a response, if it is one.
  abbrev error_of : Try Object → Option Error
  error_of (ok o) = none
  error_of (err e) = some e

  unfoldable pub reconcile_not_found : ObjectKey → History → Reconciled × History
  unfolding deregister
  reconcile_not_found req h =
      if r.create_if_not_found
      then elim (r.create_func req) [
        | none ↦ deregister req h
        | some obj ↦
            (let (response, h') = call env (create obj) h in
              elim (ignore_already_exists env (error_of response)) [
                | some e ↦ (no_object (error_result (wrap "creating object" e)), h')
                | none ↦ (no_object done_result, h')
              ])
      ]
      else deregister req h

  -- The state to begin with.
  unfoldable pub first_state : Object → Option State
  unfolding deleted_state
  first_state obj =
      if was_deleted obj
      then elim r.finalizer_state [ none ↦ some deleted_state | some i ↦ some (r.machine.states i) ]
      else state_at env r.machine r.initial_state

  abbrev returned : Option (Object × Object × Result) → Option Reconciled
  returned none = none
  returned (some (obj, conditions, result)) = some (reconciled obj conditions result)

  -- `reconcile` from the transitions on.
  unfoldable pub run_machine : ℕ → Object → History → Option Reconciled × History
  unfolding first_state
  run_machine fuel obj h =
      let (o, h') =
        run_states env r.machine fuel (first_state obj)
          (record {
            obj = obj;
            conditions = empty_object r.gvk;
            seen_states = [];
            requeue_after_completion = zero_result;
          })
          h in
      (returned o, h')

  after_add_finalizer : ℕ → Try Object → History → Option Reconciled × History
  unfolding run_machine
  after_add_finalizer fuel (ok obj) h = run_machine fuel obj h
  after_add_finalizer fuel (err e) h =
      (some (no_object (error_result (wrap "adding FSM finalizer" e))), h)

  -- `reconcile` for an object that the server has and that is not suspended.
  unfoldable pub reconcile_active : ℕ → Object → History → Option Reconciled × History
  unfolding after_add_finalizer run_machine
  reconcile_active fuel obj h =
      if is_some r.finalizer_state
        && not (contains obj.finalizers finalizer_key)
        && not (was_deleted obj)
      then (let (o, h') = add_finalizer env obj finalizer_key h in after_add_finalizer fuel o h')
      else run_machine fuel obj h

  unfoldable pub reconcile_fetched :
      ℕ → ObjectKey → Try Object → History → Option Reconciled × History
  unfolding reconcile_active reconcile_not_found
  reconcile_fetched fuel req (ok obj) h =
      let suspended = has_suspend_label obj in
      let h' = metric (record_suspend obj suspended) ∷ h in
      if suspended then (some (no_object done_result), h') else reconcile_active fuel obj h'
  reconcile_fetched fuel req (err e) h =
      if env.is_not_found e
      then (let (o, h') = reconcile_not_found req h in (some o, h'))
      else (some (no_object (error_result (wrap "getting" e))), h)

  -- The method `reconcile`; `none` means that the fuel for the loop ran out.
  unfoldable pub reconcile : ℕ → ObjectKey → History → Option Reconciled × History
  unfolding reconcile_fetched
  reconcile fuel req h =
      let (response, h') = call env (get r.gvk req) h in reconcile_fetched fuel req response h'

  -- The end of `Reconcile`: the finalizer is removed once the finalizer states are done.
  after_remove_finalizer : Result → Try Object → Outcome
  after_remove_finalizer result (ok o) = Result.get result
  after_remove_finalizer result (err e) = record no_requeue {
    error = some (wrap "removing FSM finalizer" e);
  }

  unfoldable pub finish_finalizer : Object → Result → History → Outcome × History
  unfolding after_remove_finalizer
  finish_finalizer obj result h =
      if was_deleted obj && is_some r.finalizer_state && is_done result
      then (let (o, h') = remove_finalizer env obj finalizer_key h in
          (after_remove_finalizer result o, h'))
      else (Result.get result, h)

  after_apply_status : Object → Result → Try (Unit {0}) → History → Outcome × History
  unfolding finish_finalizer
  after_apply_status obj result (ok _) h = finish_finalizer obj result h
  after_apply_status obj result (err e) h =
      (record no_requeue { error = some (wrap "updating status" e) }, h)

  -- The object with the conditions that the states gave it, and the top-level "Ready" condition.
  unfoldable pub merge_conditions : Object → Object → History → Object
  merge_conditions obj conditions h =
      let merged =
        if not r.disable_ready_condition
        then env.set_conditions conditions
            (new_ready_condition env (env.now h) obj.generation conditions.conditions ∷ [])
        else conditions in
      env.set_conditions obj merged.conditions

  -- `Reconcile` from the result of `reconcile` on.
  unfoldable pub conclude : Reconciled → History → Outcome × History
  unfolding after_apply_status merge_conditions
  conclude (no_object result) h = (Result.get result, h)
  conclude (reconciled obj conditions result) h =
      let obj' = merge_conditions obj conditions h in
      let (o, h') = apply_status env obj' [] h in after_apply_status obj' result o h'

  record_conditions : Object → List String → History → History
  record_conditions obj [] h = h
  record_conditions obj (t ∷ types) h =
      record_conditions obj types (metric (record_condition obj t) ∷ h)

  -- `res.IsZero() && err == nil`
  abbrev is_success : Outcome → Bool
  is_success o = not o.requeue && o.requeue_after == 0 && not (is_some o.error)

  after_metrics_get : ObjectKey → Outcome → Try Object → History → History
  unfolding record_conditions
  after_metrics_get req outcome (ok obj) h =
      metric (record_readiness obj)
      ∷ metric (record_processing_duration obj.gvk req obj.generation (is_success outcome))
      ∷ record_conditions obj r.condition_types h
  after_metrics_get req outcome (err e) h = h

  -- The deferred function that records metrics of the object's latest state.
  unfoldable pub record_metrics : ObjectKey → Outcome → History → History
  unfolding after_metrics_get
  record_metrics req outcome h =
      let (response, h') = call env (get r.gvk req) h in after_metrics_get req outcome response h'

  concluded : ObjectKey → Option Reconciled → History → Option Outcome × History
  unfolding conclude record_metrics
  concluded req none h = (none, h)
  concluded req (some rec) h =
      let (outcome, h') = conclude rec h in (some outcome, record_metrics req outcome h')

  -- The method `Reconcile`.
  unfoldable pub reconcile_request : ℕ → ObjectKey → History → Option Outcome × History
  unfolding concluded reconcile
  reconcile_request fuel req h = let (rec, h') = reconcile fuel req h in concluded req rec h'
