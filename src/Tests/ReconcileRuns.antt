-- ===== src/Tests/ReconcileRuns.antt =====
-- Runs of a reconciliation.
use achilles_sdk.Prelude.{
  subst, ℕ, if◌then◌else◌, ◌&&◌, All, List, [], arith, is_some, nat_eq, refl, some, string_eq, true,
  ◌++◌, ◌≡◌,
}
use achilles_sdk.Api.{Env, History, Object, Request, metric, ok, record_state_duration}
use achilles_sdk.Fsm.Machine.{apply_outputs}
use achilles_sdk.Fsm.Reconciler.{
  conclude, finalizer_key, merge_conditions, reconcile_request, reconciled, run_machine,
}
use achilles_sdk.Fsm.Reconciler.EarlyRemoval.{
  finalizer_removed_early, is_written, first_history, first_step,
}
use achilles_sdk.Fsm.Reconciler.Finalizer.{KeepsFinalizers, finalizer_kept}
use achilles_sdk.Fsm.Reconciler.Suspension.{Observes, suspended_is_left_alone}
use achilles_sdk.Fsm.Reconciler.Deleted.{deleted_object_creates_nothing}
use achilles_sdk.Fsm.Machine.Runs.Deleting.{IsTeardown, IsTidy, Tidied}
use achilles_sdk.Fsm.Reconciler.Termination.{reconcile_request_total}
use achilles_sdk.Api
use achilles_sdk.GoMap
use achilles_sdk.Fsm.Machine
use achilles_sdk.Fsm.Outputs
use achilles_sdk.Io.Applicator
use achilles_sdk.Sets.ObjectSet
use achilles_sdk.Sets.Sorting
use achilles_sdk.Fsm.Types.OutputSet
use achilles_sdk.Fsm.Types.OutputSet.{new_output_set}
use achilles_sdk.Fsm.Types.Result.{no_requeue}
use achilles_sdk.Io.Applicator.{apply_status}
use achilles_sdk.Fsm.Types.Result.{is_done, requeue_result, done_and_requeue_result, has_requeue}
use achilles_sdk.Meta.{has_suspend_label, remove_finalizer, was_deleted}
use achilles_sdk.Tests.World.{
  deleted_web, empty_server, names, server_with, suspended_web, web, web_request, work, worker,
}

reconcile_request_total_example :
    is_some (reconcile_request (server_with web) worker 3 web_request []).0 ≡ true
reconcile_request_total_example =
    reconcile_request_total (server_with web) worker names (λ i. refl) refl 3 (omega arith)
      web_request []

suspended_is_left_alone_example :
    ((reconcile_request (server_with suspended_web) worker 3 web_request []).0 ≡ some no_requeue)
    × Observes [] (reconcile_request (server_with suspended_web) worker 3 web_request []).1
unfolding has_suspend_label GoMap.lookup
suspended_is_left_alone_example =
    suspended_is_left_alone (server_with suspended_web) worker 3 web_request suspended_web [] refl
      refl

finalizer_kept_example :
    (added : List Request) × ((conclude empty_server worker
        (reconciled deleted_web deleted_web (requeue_result "waiting" 5))
        []).1
      ≡ added ++ [])
    × All KeepsFinalizers added
unfolding was_deleted merge_conditions is_done requeue_result
finalizer_kept_example =
    finalizer_kept empty_server worker deleted_web deleted_web (requeue_result "waiting" 5) [] refl

abbrev server : Env
server = server_with deleted_web

abbrev worked : History
worked =
    (apply_outputs server worker.machine deleted_web (new_output_set server)
      (first_history server worker 0 work deleted_web [])).1

-- There is nothing to apply, so the object comes back as it is.
nothing_applied :
    apply_outputs server worker.machine deleted_web
      (new_output_set server)
      (first_history server worker 0 work deleted_web [])
    ≡ (ok deleted_web, worked)
unfolding apply_outputs Api.◌>>=◌ OutputSet.list_applied ObjectSet.list new_output_set
    ObjectSet.new_object_set Api.pure Outputs.apply_output_set OutputSet.list_deleted Api.wrapping
    OutputSet.list_applied_outputs apply_status Api.attempt Api.call Machine.report_unmanaged
    Outputs.apply_managed_resource_refs Outputs.delete_outputs Outputs.ensure_outputs
    Outputs.keep_refs ObjectSet.deep_copy ObjectSet.insert ObjectSet.values Sorting.sort_pairs
    Api.unless_error Api.lift Applicator.apply_opts Api.emit
nothing_applied = refl

finalizer_removed_early_example :
    (conditions : Object) × (run_machine server worker 1 deleted_web [] ≡ (
      some (
          reconciled deleted_web conditions
            (first_step server worker 0 work deleted_web []).result),
      worked,
    ))
    × ((conclude server worker
          (reconciled deleted_web conditions
            (first_step server worker 0 work deleted_web []).result)
          worked).1
        ≡ (let merged = merge_conditions server worker deleted_web conditions worked in
            let (written, h'') = apply_status server merged [] worked in
            if is_written written && was_deleted merged
            then (remove_finalizer server merged finalizer_key h'').1
            else h''))
unfolding was_deleted is_done done_and_requeue_result has_requeue
finalizer_removed_early_example =
    finalizer_removed_early server worker 0 work deleted_web [] 0 deleted_web worked refl refl refl
      refl refl refl nothing_applied

work-IsTidy : (i : ℕ) → IsTidy server worker.machine (worker.machine.states i)
work-IsTidy i f obj out h has deleted =
    let same : work ≡ f = cc in subst (λ g. Tidied (g obj out h)) same (deleted, tt)

deleted_object_creates_nothing_example :
    (added : List Request) × ((reconcile_request server worker 3 web_request []).1 ≡ added ++ [])
    × All IsTeardown added
unfolding was_deleted
deleted_object_creates_nothing_example =
    deleted_object_creates_nothing server worker names (λ i. refl) refl 3 (omega arith) work-IsTidy
      web_request deleted_web [] refl refl
