-- ===== src/Tests/MachineRuns.antt =====
-- A run of the loop over the states, with a machine of one state.
use achilles_sdk.Api.{Error, History, Object, err, ok, wrap}
use achilles_sdk.Fsm.Machine.{Loop, run_states}
use achilles_sdk.Fsm.Reconciler.{finalizer_key, first_state, reconcile_request}
use achilles_sdk.Fsm.Reconciler.Active.{
  RunsFrom, finalizer_first, Ends, ends_with, fresh, read_history, reconcile_request-Run,
}
use achilles_sdk.Meta.{add_finalizer, has_suspend_label, was_deleted}
use achilles_sdk.GoMap
use achilles_sdk.Fsm.Machine.Runs.{Run}
use achilles_sdk.Fsm.Machine.Runs.Sound.{run_states-Run}
use achilles_sdk.Fsm.Types.Result.{no_requeue, Outcome, Result, zero_result}
use achilles_sdk.Tests.World.{deleted_web, names, one_state, server_with, web, web_request, worker}
use achilles_sdk.Prelude.{◌⊎◌, [], arith, refl, some, string_eq, ◌≡◌}

abbrev fresh_loop : Loop
fresh_loop = record {
  obj = web;
  conditions = web;
  seen_states = [];
  requeue_after_completion = zero_result;
}

run_states-Run_example :
    (out : Object × Object × Result) × (h' : History) × (run_states
        (server_with web)
        one_state
        3
        (some (one_state.states 0))
        fresh_loop
        []
      ≡ (some out, h'))
    × Run (server_with web) one_state (some (one_state.states 0)) fresh_loop [] out h'
    × ((out' : Object × Object × Result) (h'' : History)
        → Run (server_with web) one_state (some (one_state.states 0)) fresh_loop [] out' h''
        → (out ≡ out') × (h' ≡ h''))
run_states-Run_example =
    run_states-Run (server_with web) one_state 3 names (some (one_state.states 0)) fresh_loop []
      (λ i. refl) refl (omega arith)

-- The object needs no new finalizer, since it is being deleted.
reconcile_request-Run_example :
    (obj' : Object) × (conditions : Object) × (result : Result) × (h₁ : History) × Run
      (server_with deleted_web)
      one_state
      (first_state (server_with deleted_web) worker deleted_web)
      (fresh (server_with deleted_web) worker deleted_web)
      (read_history (server_with deleted_web) worker web_request deleted_web [])
      (obj', conditions, result)
      h₁
    × (out : Outcome × History) × Ends
        (server_with deleted_web)
        worker
        obj'
        conditions
        result
        h₁
        out
    × (reconcile_request (server_with deleted_web) worker 3 web_request []
        ≡ ends_with (server_with deleted_web) worker web_request out)
unfolding has_suspend_label GoMap.lookup was_deleted
reconcile_request-Run_example =
    reconcile_request-Run (server_with deleted_web) worker names (λ i. refl) refl 3 (omega arith)
      web_request deleted_web [] refl refl refl

finalizer_first_example :
    let (added, h₁) =
      add_finalizer
        (server_with web)
        web
        finalizer_key
        (read_history (server_with web) worker web_request web []) in
    ((e : Error) × (added ≡ err e)
      × (reconcile_request (server_with web) worker 3 web_request []
          ≡ ends_with
              (server_with web)
              worker
              web_request
              (record no_requeue { error = some (wrap "adding FSM finalizer" e) }, h₁)))
    ⊎ ((o : Object) × (added ≡ ok o)
        × RunsFrom
            (server_with web)
            worker
            names
            (λ i. refl)
            refl
            3
            (omega arith)
            web_request
            []
            o
            h₁)
unfolding has_suspend_label GoMap.lookup was_deleted
finalizer_first_example =
    finalizer_first (server_with web) worker names (λ i. refl) refl 3 (omega arith) web_request web
      [] refl refl refl
