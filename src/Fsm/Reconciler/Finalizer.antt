-- ===== src/Fsm/Reconciler/Finalizer.antt =====
-- When `Reconcile` (pkg/fsm/internal/reconciler.go) removes the FSM finalizer.
use achilles_sdk.Api.{
  Env, History, Object, Request, Try, create, create_dry_run, delete, delete_foreground, dpanic,
  err, get, metric, ok, patch, patch_status, update, update_status,
}
use achilles_sdk.Api.Effects.{Emits}
use achilles_sdk.Fsm.Reconciler.{
  Reconciler, after_apply_status, conclude, finish_finalizer, merge_conditions, reconciled,
}
use achilles_sdk.Fsm.Types.Result.{Result, is_done}
use achilles_sdk.Io.Applicator.{apply_status}
use achilles_sdk.Io.Applicator.Footprint.{Emits-apply_status}
use achilles_sdk.Meta.{was_deleted}
use achilles_sdk.Prelude.{All, List, [], false, is_some, string_eq, ◌&&◌, ◌++◌, ◌≡◌}

-- Reads and writes of a status, which touch no finalizer.
abbrev pub KeepsFinalizers : Request → Type 0
KeepsFinalizers (get _ _) = Unit
KeepsFinalizers (create _) = ⊥
KeepsFinalizers (create_dry_run _) = ⊥
KeepsFinalizers (update _) = ⊥
KeepsFinalizers (patch _) = ⊥
KeepsFinalizers (delete _) = ⊥
KeepsFinalizers (delete_foreground _) = ⊥
KeepsFinalizers (update_status _) = Unit
KeepsFinalizers (patch_status _) = Unit
KeepsFinalizers (metric _) = ⊥
KeepsFinalizers (dpanic _) = ⊥

module _ (env : Env) (r : Reconciler) where
  status_keeps : (o : Object) → Emits KeepsFinalizers (apply_status env o [])
  status_keeps o = Emits-apply_status env {P = KeepsFinalizers} (λ g k. tt) (λ o. tt) (λ o. tt) o []

  -- After the states have run, `Reconcile` touches the object's finalizers only if the object is
  -- being deleted, the machine has finalizer states and the result is done. In every other case all
  -- that it adds to the history are reads and writes of a status.
  pub finalizer_kept :
      (obj conditions : Object) (result : Result) (h : History)
      → was_deleted (merge_conditions env r obj conditions h)
          && is_some r.finalizer_state
          && is_done result
        ≡ false
      → (added : List Request) × ((conclude env r (reconciled obj conditions result) h).1
          ≡ added ++ h)
        × All KeepsFinalizers added
  unfolding conclude
  finalizer_kept obj conditions result h kept =
      let obj' = merge_conditions env r obj conditions h in
      let (o, h') = apply_status env obj' [] h in go o h' ((status_keeps obj').at h)
    where
      go :
          (o : Try (Unit {0})) (h' : History)
          → ((added : List Request) × (h' ≡ added ++ h) × All KeepsFinalizers added)
          → (added : List Request) × ((after_apply_status env r
                (merge_conditions env r obj conditions h)
                result
                o
                h').1
              ≡ added ++ h)
            × All KeepsFinalizers added
      go (ok u) h' a = unfold after_apply_status finish_finalizer in rw kept a
      go (err e) h' a = unfold after_apply_status in a
