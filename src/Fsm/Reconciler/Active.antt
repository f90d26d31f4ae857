-- ===== src/Fsm/Reconciler/Active.antt =====
-- A reconciliation of an object that the server has, put together of a run of the machine, the write
-- of the status and the removal of the finalizer (pkg/fsm/internal/reconciler.go).
use achilles_sdk.Api.{
  Env, Error, History, Object, ObjectKey, Try, call, empty_object, err, get, metric, ok,
  record_suspend, wrap,
}
use achilles_sdk.Fsm.Machine.{Loop, run_states}
use achilles_sdk.Fsm.Machine.Runs.{Run}
use achilles_sdk.Fsm.Machine.Runs.Sound.{run_states-Run}
use achilles_sdk.Fsm.Machine.Termination.{unseen_le_length}
use achilles_sdk.Fsm.Reconciler.{
  Reconciler, after_add_finalizer, after_apply_status, conclude, concluded, deleted_state_name,
  finalizer_key, finish_finalizer, first_state, merge_conditions, reconcile, reconcile_active,
  reconcile_fetched, reconcile_request, reconciled, record_metrics, run_machine,
}
use achilles_sdk.Fsm.Reconciler.Termination.{first_state-IsNamed}
use achilles_sdk.Fsm.Types.Result
use achilles_sdk.Fsm.Types.Result.{Outcome, Result, error_result, no_requeue, zero_result}
use achilles_sdk.Io.Applicator.{apply_status}
use achilles_sdk.Meta.{add_finalizer, has_suspend_label, was_deleted}
use achilles_sdk.Prelude.{
  Bool, List, Option, String, [], arith, contains, false, inl, inr, is_some, length, not, refl,
  some, string_eq, true, ℕ, ◌&&◌, ◌<◌, ◌∷◌, ◌≡◌, ◌⊎◌,
}

Try-cases : (t : Try Object) → ((e : Error) × (t ≡ err e)) ⊎ ((o : Object) × (t ≡ ok o))
Try-cases (err e) = inl (e, refl)
Try-cases (ok o) = inr (o, refl)

module _ (env : Env) (r : Reconciler) where
  -- The loop's variables at the beginning.
  abbrev pub fresh : Object → Loop
  fresh obj = record {
    obj = obj;
    conditions = empty_object r.gvk;
    seen_states = [];
    requeue_after_completion = zero_result;
  }

  -- The finalizer has to be added before the states run.
  abbrev pub lacks_finalizer : Object → Bool
  lacks_finalizer obj =
      is_some r.finalizer_state
      && not (contains obj.finalizers finalizer_key)
      && not (was_deleted obj)

  -- The history when the object has been read and found not to be suspended.
  abbrev pub read_history : ObjectKey → Object → History → History
  read_history req obj h = metric (record_suspend obj false) ∷ get r.gvk req ∷ h

  -- The outcome, and the metrics that are recorded for it.
  abbrev pub ends_with : ObjectKey → Outcome × History → Option Outcome × History
  ends_with req x = (some x.0, record_metrics env r req x.0 x.1)

  active_lem :
      (fuel : ℕ) (req : ObjectKey) (obj : Object) (h : History)
      → env.respond h (get r.gvk req) ≡ ok obj
      → has_suspend_label obj ≡ false
      → lacks_finalizer obj ≡ false
      → reconcile env r fuel req h ≡ run_machine env r fuel obj (read_history req obj h)
  unfolding reconcile reconcile_fetched reconcile_active call
  active_lem fuel req obj h found awake has = rw found (rw awake (rw has refl))

  -- A reconciliation whose loop returned.
  returned_lem :
      (fuel : ℕ) (req : ObjectKey) (obj obj' conditions : Object) (result : Result)
      (h h₀ h₁ : History)
      → reconcile env r fuel req h ≡ run_machine env r fuel obj h₀
      → run_states env r.machine fuel (first_state env r obj) (fresh obj) h₀
        ≡ (some (obj', conditions, result), h₁)
      → reconcile_request env r fuel req h
        ≡ ends_with req (conclude env r (reconciled obj' conditions result) h₁)
  unfolding reconcile_request concluded run_machine
  returned_lem fuel req obj obj' conditions result h h₀ h₁ starts e = rw starts (rw e refl)

  module _ (obj conditions : Object) (result : Result) (h : History) where
    abbrev merged : Object
    merged = merge_conditions env r obj conditions h

    abbrev status_write : Try (Unit {0}) × History
    status_write = apply_status env merged [] h

    -- The status is not written and the reconciliation fails, or it is and the finalizer is next.
    abbrev pub Ends : Outcome × History → Type 0
    Ends out =
        ((e : Error) × (status_write.0 ≡ err e)
          × (out ≡ (record no_requeue { error = some (wrap "updating status" e) }, status_write.1)))
        ⊎ ((status_write.0 ≡ ok tt) × (out ≡ finish_finalizer env r merged result status_write.1))

    conclude_lem :
        (t : Try (Unit {0}))
        → status_write.0 ≡ t
        → Ends (conclude env r (reconciled obj conditions result) h)
    unfolding conclude after_apply_status
    conclude_lem (err e) failed = inl (e, failed, rw failed refl)
    conclude_lem (ok tt) written = inr (written, rw written refl)

  module _ (names : List String) (known : (i : ℕ) → contains names (r.machine.states i).name ≡ true)
      (deleted : contains names deleted_state_name ≡ true) (fuel : ℕ)
      (enough : length names < fuel) where
    -- The states run on the object from the history on, and the reconciliation ends after them.
    abbrev pub RunsFrom : ObjectKey → History → Object → History → Type 0
    RunsFrom req h obj h₀ =
        (obj' : Object) × (conditions : Object) × (result : Result) × (h₁ : History) × Run env
          r.machine (first_state env r obj) (fresh obj) h₀ (obj', conditions, result) h₁
        × (out : Outcome × History) × Ends obj' conditions result h₁ out
        × (reconcile_request env r fuel req h ≡ ends_with req out)

    runs_from :
        (req : ObjectKey) (h : History) (obj : Object) (h₀ : History)
        → reconcile env r fuel req h ≡ run_machine env r fuel obj h₀
        → RunsFrom req h obj h₀
    runs_from req h obj h₀ starts =
        let ((obj', conditions, result), h₁, e, run, _) =
          run_states-Run env r.machine fuel names (first_state env r obj) (fresh obj) h₀ known
            (first_state-IsNamed env r names known deleted fuel enough obj)
            (omega (arith, unseen_le_length names [])) in
        (
          obj',
          conditions,
          result,
          h₁,
          run,
          conclude env r (reconciled obj' conditions result) h₁,
          conclude_lem obj' conditions result h₁ (status_write obj' conditions result h₁).0 refl,
          returned_lem fuel req obj obj' conditions result h h₀ h₁ starts e,
        )

    -- An object that the server has, that is not suspended and that needs no new finalizer: its
    -- reconciliation, with fuel for every state's name, is a run of the relation between states from
    -- the first state, then the conditions' merge and the write of the status, whose error ends it as
    -- "updating status", then the end of the finalizer, and the metrics of the outcome.
    pub reconcile_request-Run :
        (req : ObjectKey) (obj : Object) (h : History)
        → env.respond h (get r.gvk req) ≡ ok obj
        → has_suspend_label obj ≡ false
        → lacks_finalizer obj ≡ false
        → RunsFrom req h obj (read_history req obj h)
    reconcile_request-Run req obj h found awake has =
        runs_from req h obj (read_history req obj h) (active_lem fuel req obj h found awake has)

    -- The outcome of an error of the finalizer.
    abbrev pub not_added : Error → Outcome
    not_added e = record no_requeue { error = some (wrap "adding FSM finalizer" e) }

    not_added_lem :
        (req : ObjectKey) (obj : Object) (h : History) (e : Error)
        → env.respond h (get r.gvk req) ≡ ok obj
        → has_suspend_label obj ≡ false
        → lacks_finalizer obj ≡ true
        → (add_finalizer env obj finalizer_key (read_history req obj h)).0 ≡ err e
        → reconcile_request env r fuel req h
          ≡ ends_with req
              (not_added e, (add_finalizer env obj finalizer_key (read_history req obj h)).1)
    unfolding reconcile_request reconcile reconcile_fetched reconcile_active call
        after_add_finalizer concluded conclude Result.get error_result
    not_added_lem req obj h e found awake lacks failed =
        rw found (rw awake (rw lacks (rw failed refl)))

    added_lem :
        (req : ObjectKey) (obj o : Object) (h : History)
        → env.respond h (get r.gvk req) ≡ ok obj
        → has_suspend_label obj ≡ false
        → lacks_finalizer obj ≡ true
        → (add_finalizer env obj finalizer_key (read_history req obj h)).0 ≡ ok o
        → reconcile env r fuel req h
          ≡ run_machine env r fuel o
              (add_finalizer env obj finalizer_key (read_history req obj h)).1
    unfolding reconcile reconcile_fetched reconcile_active call after_add_finalizer
    added_lem req obj o h found awake lacks added = rw found (rw awake (rw lacks (rw added refl)))

    -- No state runs before the finalizer is there: if the server has the object, it is not
    -- suspended, not being deleted and has no finalizer although the machine has finalizer states,
    -- then the finalizer is added first. If that fails, no state runs and the error is returned;
    -- otherwise the machine runs on the object that the finalizer was added to.
    pub finalizer_first :
        (req : ObjectKey) (obj : Object) (h : History)
        → env.respond h (get r.gvk req) ≡ ok obj
        → has_suspend_label obj ≡ false
        → lacks_finalizer obj ≡ true
        → let (added, h₁) = add_finalizer env obj finalizer_key (read_history req obj h) in
          ((e : Error) × (added ≡ err e)
            × (reconcile_request env r fuel req h ≡ ends_with req (not_added e, h₁)))
          ⊎ ((o : Object) × (added ≡ ok o) × RunsFrom req h o h₁)
    finalizer_first req obj h found awake lacks =
        elim (Try-cases (add_finalizer env obj finalizer_key (read_history req obj h)).0) [
          | inl (e, failed) ↦ inl (e, failed, not_added_lem req obj h e found awake lacks failed)
          | inr (o, added) ↦ inr (
            o,
            added,
            runs_from req h o (add_finalizer env obj finalizer_key (read_history req obj h)).1
                (added_lem req obj o h found awake lacks added),
          )
        ]
